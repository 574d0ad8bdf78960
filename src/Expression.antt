-- ===== src/Expression.antt =====
-- Lights, face and loudspeaker: firmware/components/expression.
pub mod Led
pub mod LedBuffer
pub mod Face
pub mod FacePages
pub mod Faces
pub mod Speaker
pub mod Playback
