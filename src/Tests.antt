-- ===== src/Tests.antt =====
-- Concrete versions of the third-party interfaces, and the theorems at concrete inputs.
mod Numbers
mod CurveObjects
mod KeyObjects
mod Ciphers
mod Services
mod PemObjects
mod PemTexts
mod KeystrExamples
mod SignObjects
mod KdfExamples
mod WireExamples
mod CipherExamples
mod BlobExamples
mod KeyExamples
mod EqualExamples
mod DisplayExamples
mod QueueExamples
