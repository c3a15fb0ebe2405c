-- ===== src/Config.antt =====
-- The build's configuration (Kconfig) and the error codes that the C functions return.
use zmk_module_runtime_macro.Base.{ℕ, ◌≤◌, Bool, if◌then◌else◌}

-- The CONFIG_ZMK_RUNTIME_MACRO_* values that the code is compiled with.
pub record Config : Type 0 where
  pub slot_count : ℕ
  pub max_text_len : ℕ
  pub tap_ms : ℕ
  pub wait_ms : ℕ
  pub dynamic : Bool
  pub dynamic_slot_count : ℕ
  pub challenge_timeout : ℕ
  pub session_timeout : ℕ
  pub clear_on_usb_disconnect : Bool
  pub clear_on_ble_profile_change : Bool
  pub clear_on_endpoint_change : Bool

-- The ranges that Kconfig gives them.
pub record InRange (c : Config) : Type 0 where
  pub some_slot : 1 ≤ c.slot_count
  pub slots_le : c.slot_count ≤ 16
  pub some_text : 1 ≤ c.max_text_len
  pub text_le : c.max_text_len ≤ 256
  pub some_dynamic : 1 ≤ c.dynamic_slot_count
  pub dynamic_le : c.dynamic_slot_count ≤ 8
  pub some_challenge : 1 ≤ c.challenge_timeout
  pub some_session : 1 ≤ c.session_timeout

-- ZMK_RUNTIME_MACRO_DYNAMIC_SLOT_MAX_TEXT_LEN
abbrev pub dynamic_max_text_len : ℕ
dynamic_max_text_len = 512

-- RUNTIME_MACRO_EXECUTOR_MAX_TEXT_LEN
abbrev pub executor_max_text_len : Config → ℕ
executor_max_text_len c = if c.dynamic then dynamic_max_text_len else c.max_text_len

-- The negative errno values, each under its name; `other` is any code of a called library.
pub data Errno : Type 0 where
  einval enoent eio ebusy enospc enodata eperm eagain eacces enodev enotsup : Errno
  other : ℕ → Errno

-- The `int` of a C function: 0 with the value it gives out, or a negative errno.
pub data Result {ℓ} (A : Type ℓ) : Type ℓ where
  ok : A → Result A
  err : Errno → Result A

-- A function that gives out nothing but its status.
abbrev pub Status : Type 0
Status = Result (Unit {0})

abbrev pub done : Status
done = ok tt
