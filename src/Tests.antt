-- ===== src/Tests.antt =====
-- The theorems at concrete inputs: a build with two static and two dynamic slots.
mod Data
mod Keys
mod Store
mod Dynamic
mod Auth
mod Protocol
