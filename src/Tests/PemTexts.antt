-- ===== src/Tests/PemTexts.antt =====
-- A small version of OpenSSL's PEM texts and of the crate `pem`. Only one RSA key and one Ed25519 key
-- have texts, and the texts have no body.
use rust_osshkeys.Prelude.{
  subst, ◌≡◌, ◌-◌, ◌&&◌, ◌∙◌, refl, sym, ap, arith, Bytes, [], ◌∷◌, ◌++◌, ascii, bytes_eq,
  bytes_eq_iff, Bool, true, false, Option, none, some, panic, length, length-append, replicate,
  drop, take, take-append_left, ok, err, if◌then◌else◌, and_then,
}
use rust_osshkeys.External.Pems.{
  has_nul, PemBlock, Pems, PrivateText, without_feeds, no_empty_line, begin_of,
}
use rust_osshkeys.External.PemLib.{PemLib}
use rust_osshkeys.External.PKeys.{PkeyId}
use rust_osshkeys.Sshbuf.Utf8.{IsText, is_utf8}
use rust_osshkeys.Tests.KeyObjects.{key_objects, RsaPrivate, make_rsa}
use rust_osshkeys.Tests.CurveObjects.{ed_bytes}
use rust_osshkeys.Tests.Ciphers.{Failable}
use rust_osshkeys.Tests.Services.{services, spelling}
use rust_osshkeys.Tests.PemObjects.{
  pkeys, PublicPkey, PrivatePkey, private_id, private_rsa, checked, checked-eq-ok,
}

abbrev pub rsa_n : Bytes
rsa_n = replicate 128 200

abbrev pub the_rsa : RsaPrivate
the_rsa = make_rsa rsa_n (3 ∷ []) (7 ∷ []) (5 ∷ []) (11 ∷ []) (1 ∷ []) (2 ∷ []) (4 ∷ [])

abbrev pub is_the_rsa : RsaPrivate → Bool
is_the_rsa k =
    bytes_eq k.n rsa_n
    && (bytes_eq k.e (3 ∷ [])
        && (bytes_eq k.d (7 ∷ [])
            && (bytes_eq k.p (5 ∷ [])
                && (bytes_eq k.q (11 ∷ [])
                    && (bytes_eq k.dmp1 (1 ∷ [])
                        && (bytes_eq k.dmq1 (2 ∷ []) && bytes_eq k.iqmp (4 ∷ [])))))))

both : (a b : Bool) → (a && b) ≡ true → (a ≡ true) × (b ≡ true)
both true true h = (refl, refl)
both true false h = cc
both false b h = cc

same_field : (a b : Bytes) (rest : Bool) → (bytes_eq a b && rest) ≡ true → (a ≡ b) × (rest ≡ true)
same_field a b rest h = let (x, y) = both (bytes_eq a b) rest h in ((bytes_eq_iff a b).0 x, y)

pub is_the_rsa-eq-true : (k : RsaPrivate) → is_the_rsa k ≡ true → the_rsa ≡ k
is_the_rsa-eq-true k h =
    let (n, h1) = same_field k.n rsa_n _ h in
    let (e, h2) = same_field k.e (3 ∷ []) _ h1 in
    let (d, h3) = same_field k.d (7 ∷ []) _ h2 in
    let (p, h4) = same_field k.p (5 ∷ []) _ h3 in
    let (q, h5) = same_field k.q (11 ∷ []) _ h4 in
    let (x, h6) = same_field k.dmp1 (1 ∷ []) _ h5 in
    let (y, h7) = same_field k.dmq1 (2 ∷ []) _ h6 in
    let z = (bytes_eq_iff k.iqmp (4 ∷ [])).0 h7 in
    λ i. make_rsa (sym n i) (sym e i) (sym d i) (sym p i) (sym q i) (sym x i) (sym y i) (sym z i)

abbrev pub rsa_text : Bytes
rsa_text = begin_of (ascii "RSA PRIVATE KEY")

abbrev pub ed_text : Bytes
ed_text = begin_of (ascii "PRIVATE KEY")

abbrev pub ed_public_text : Bytes
ed_public_text = begin_of (ascii "PUBLIC KEY")

abbrev pub the_ed : Bytes
the_ed = ed_bytes true

-- What stands between the markers of the OpenSSH format.
abbrev pub openssh_end : Bytes
openssh_end = 10 ∷ (ascii "-----END OPENSSH PRIVATE KEY-----" ++ (10 ∷ []))

abbrev pub body_of : Bytes → Bytes
body_of t = let rest = drop 36 t in take (length rest - length openssh_end) rest

abbrev pub block_of : Bytes → Bytes → PemBlock
block_of tag contents = record { tag = tag; contents = contents; header = λ _. none }

abbrev pub parse_text : Bytes → Failable PemBlock
parse_text t =
    if bytes_eq t rsa_text
    then ok (block_of (ascii "RSA PRIVATE KEY") [])
    else if bytes_eq t ed_text
    then ok (block_of (ascii "PRIVATE KEY") [])
    else and_then (spelling.decode (without_feeds (body_of t)))
        (λ b. ok (block_of (ascii "OPENSSH PRIVATE KEY") b))

abbrev pub read_private_text : Bytes → Failable PrivatePkey
read_private_text t =
    if bytes_eq t rsa_text
    then ok (PrivatePkey.rsa the_rsa)
    else checked (bytes_eq t ed_text) (PrivatePkey.raw the_ed)

-- As in rust-openssl, a NUL in the passphrase is a panic.
abbrev pub read_with_passphrase : Bytes → Bytes → Failable PrivatePkey
read_with_passphrase t pass = if has_nul pass then panic else read_private_text t

abbrev pub write_rsa : RsaPrivate → Failable Bytes
write_rsa k = checked (is_the_rsa k) rsa_text

abbrev pub write_pkcs8 : PrivatePkey → Failable Bytes
write_pkcs8 (PrivatePkey.raw b) = checked (bytes_eq b the_ed) ed_text
write_pkcs8 _ = err tt

abbrev pub write_public : PublicPkey → Failable Bytes
write_public (PublicPkey.raw b) = checked (bytes_eq b the_ed) ed_public_text
write_public _ = err tt

abbrev pub ReadAs : Bytes → Bytes → Option Bytes → PrivatePkey → Type 0
ReadAs t tag pass p = PrivateText parse_text read_private_text read_with_passphrase t tag pass p

pub rsa_reads : ReadAs rsa_text (ascii "RSA PRIVATE KEY") none (PrivatePkey.rsa the_rsa)
unfolding bytes_eq is_utf8
rsa_reads = record {
  reads = refl;
  text = refl;
  block = block_of (ascii "RSA PRIVATE KEY") [];
  parsed = refl;
  tagged = refl;
}

pub rsa_reads_pass :
    (pass : Bytes)
    → has_nul pass ≡ false
    → ReadAs rsa_text (ascii "RSA PRIVATE KEY") (some pass) (PrivatePkey.rsa the_rsa)
unfolding bytes_eq is_utf8
rsa_reads_pass pass h = record {
  reads = rw h refl;
  text = refl;
  block = block_of (ascii "RSA PRIVATE KEY") [];
  parsed = refl;
  tagged = refl;
}

ed_reads : ReadAs ed_text (ascii "PRIVATE KEY") none (PrivatePkey.raw the_ed)
unfolding bytes_eq is_utf8
ed_reads = record {
  reads = refl;
  text = refl;
  block = block_of (ascii "PRIVATE KEY") [];
  parsed = refl;
  tagged = refl;
}

pub rsa_written :
    (pass : Option Bytes)
    → ReadAs rsa_text (ascii "RSA PRIVATE KEY") pass (PrivatePkey.rsa the_rsa)
    → (k : RsaPrivate) (t : Bytes) → write_rsa k ≡ ok t
    → (p : PrivatePkey) × ReadAs t (ascii "RSA PRIVATE KEY") pass p
      × (private_id p ≡ PkeyId.rsa)
      × (private_rsa p ≡ ok k)
rsa_written pass reads k t h =
    let (is, same) = checked-eq-ok (is_the_rsa k) rsa_text t h in
    (
      PrivatePkey.rsa the_rsa,
      subst (λ s. ReadAs s (ascii "RSA PRIVATE KEY") pass (PrivatePkey.rsa the_rsa)) same reads,
      refl,
      ap ok (is_the_rsa-eq-true k is),
    )

pub pkcs8_written :
    (p : PrivatePkey) (t : Bytes) → write_pkcs8 p ≡ ok t → ReadAs t (ascii "PRIVATE KEY") none p
pkcs8_written (PrivatePkey.rsa k) t h = cc
pkcs8_written (PrivatePkey.dsa k) t h = cc
pkcs8_written (PrivatePkey.ec k) t h = cc
pkcs8_written (PrivatePkey.raw b) t h =
    let (is, same) = checked-eq-ok (bytes_eq b the_ed) ed_text t h in
    let key = (bytes_eq_iff b the_ed).0 is in
    subst (λ s. ReadAs s (ascii "PRIVATE KEY") none (PrivatePkey.raw b)) same
      (subst (λ c. ReadAs ed_text (ascii "PRIVATE KEY") none (PrivatePkey.raw c)) (sym key)
        ed_reads)

abbrev pub read_public_text : Bytes → Failable PublicPkey
read_public_text t = checked (bytes_eq t ed_public_text) (PublicPkey.raw the_ed)

ed_public_reads :
    (rest : Bytes) × (ed_public_text ≡ begin_of (ascii "PUBLIC KEY") ++ rest)
    × IsText ed_public_text
    × (read_public_text ed_public_text ≡ ok (PublicPkey.raw the_ed))
unfolding bytes_eq is_utf8
ed_public_reads = ([], refl, refl, refl)

pub public_written :
    (p : PublicPkey) (t : Bytes)
    → write_public p ≡ ok t
    → (rest : Bytes) × (t ≡ begin_of (ascii "PUBLIC KEY") ++ rest)
      × IsText t
      × (read_public_text t ≡ ok p)
public_written (PublicPkey.rsa k) t h = cc
public_written (PublicPkey.dsa k) t h = cc
public_written (PublicPkey.ec k) t h = cc
public_written (PublicPkey.raw b) t h =
    let (is, same) = checked-eq-ok (bytes_eq b the_ed) ed_public_text t h in
    let key = (bytes_eq_iff b the_ed).0 is in
    let (rest, starts, text, reads) = ed_public_reads in
    (
      rest,
      sym same ∙ starts,
      subst IsText same text,
      ap read_public_text (sym same) ∙ reads ∙ ap (λ c. ok (PublicPkey.raw c)) (sym key),
    )

pub openssh_parsed :
    (body contents : Bytes)
    → no_empty_line true body ≡ true
    → spelling.decode (without_feeds body) ≡ ok contents
    → (block : PemBlock) × (parse_text
          (begin_of (ascii "OPENSSH PRIVATE KEY") ++ (10 ∷ (body ++ openssh_end)))
        ≡ ok block)
      × (block.tag ≡ ascii "OPENSSH PRIVATE KEY")
      × (block.contents ≡ contents)
unfolding bytes_eq
openssh_parsed body contents lines h =
    let size : length (body ++ openssh_end) - length openssh_end ≡ length body =
      omega (arith, length-append body openssh_end) in
    (
      block_of (ascii "OPENSSH PRIVATE KEY") contents,
      rw (size, take-append_left body openssh_end)
          (ap (λ m. and_then m (λ b. ok (block_of (ascii "OPENSSH PRIVATE KEY") b))) h),
      refl,
      refl,
    )

abbrev pub refused : Failable Bytes
refused = err tt

pub not_written {ℓ} : {A : Type ℓ} (t : Bytes) → refused ≡ ok t → A
not_written t h = cc

abbrev pub pem_texts : Pems key_objects pkeys spelling
pem_texts = record {
  parse = parse_text;
  private_key_from_pem = read_private_text;
  private_key_from_pem_passphrase = read_with_passphrase;
  public_key_from_pem = read_public_text;
  public_key_from_pem_pkcs1 = λ t. err tt;
  public_key_to_pem = write_public;
  public_key_to_pem_pkcs1 = λ k. err tt;
  private_key_to_pem_pkcs8 = write_pkcs8;
  private_key_to_pem_pkcs8_passphrase = λ p c pass. err tt;
  rsa_to_pem = write_rsa;
  dsa_to_pem = λ k. err tt;
  ec_to_pem = λ k. err tt;
  rsa_to_pem_passphrase = λ k c pass. write_rsa k;
  dsa_to_pem_passphrase = λ k c pass. err tt;
  ec_to_pem_passphrase = λ k c pass. err tt;
  rsa_text = rsa_written none rsa_reads;
  dsa_text = λ k t h. not_written t h;
  ec_text = λ k t h. not_written t h;
  rsa_passphrase_text =
      λ k c pass t fits h. rsa_written (some pass) (rsa_reads_pass pass fits.0) k t h;
  dsa_passphrase_text = λ k c pass t fits h. not_written t h;
  ec_passphrase_text = λ k c pass t fits h. not_written t h;
  pkcs8_text = pkcs8_written;
  pkcs8_passphrase_text = λ p c pass t fits h. not_written t h;
  public_text = public_written;
  pkcs1_text = λ k t h. not_written t h;
  openssh_text = openssh_parsed;
}

abbrev pub pem_lib : PemLib
pem_lib = record { ossh = services; b64 = spelling; pk = pkeys; pems = pem_texts }
