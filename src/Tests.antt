-- ===== src/Tests.antt =====
-- Runs of the modelled code on small inputs, and the theorems at inputs that meet their hypotheses.
mod Wildcard
mod ObjCache
mod LockServer
mod Erasure
mod Quorum
mod XlMeta
mod HttpRange
mod Preconditions
mod NsLock
mod BucketPolicy
mod BytePool
mod ErasureRead
mod StreamingSignature
mod XlHealing
mod ErasureCreate
mod Distribution
mod Mirror
mod ErasureRoundTrip
mod XlObject
mod PolicyNesting
mod Rename
