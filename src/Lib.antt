-- ===== src/Lib.antt =====
-- Runtime macros for ZMK keyboards: texts that are set at run time and typed by a key.
--
-- The program is a firmware module. Static slots hold texts that the settings library keeps across
-- boots, dynamic slots hold texts in RAM that expire, and one executor types either kind, one key at
-- a time, from a work item. Keys of the keymap start a text. A management protocol of 32-byte frames
-- sets and reads the slots for a client that has authenticated, and uploads dynamic texts.
--
-- Files, and the code that each models:
-- - Config: the Kconfig values with their ranges, and the error codes.
-- - Ascii: src/runtime_macro_ascii.c, the table and its lookup. Ascii/Alphabet: which bytes it has.
-- - Executor: src/runtime_macro_executor.c. `work_handler` is runtime_macro_executor_work_handler,
--   `start` zmk_runtime_macro_executor_start, `finish` runtime_macro_executor_finish. Executor/Keys
--   follows the keys, Executor/Typing and Executor/Prefix the text, Executor/End
--   its end.
-- - Slots and Slots/Settings: src/runtime_macro.c. `slot_set`, `slot_copy`, `slot_clear` are the
--   functions zmk_runtime_macro_slot_*, `load_setting` is runtime_macro_settings_set and
--   `commit_defaults` runtime_macro_settings_commit.
-- - Static: zmk_runtime_macro_execute and src/behaviors/behavior_runtime_macro.c.
-- - Dynamic/Defs and Dynamic/Execute: src/runtime_macro_dynamic.c with its internal header,
--   src/behaviors/behavior_runtime_macro_dynamic.c and src/runtime_macro_dynamic_lifecycle.c. A
--   function runtime_macro_dynamic_*_locked keeps its middle name, as `expire_due` and `rearm`.
--   Dynamic/Receive and Dynamic/Upload follow an upload, Dynamic/Expiry the deadlines.
-- - Auth/State and Auth/Ops: src/runtime_macro_auth.c and its header. `verify_proof`, `set_credential`
--   and the like are the functions zmk_runtime_macro_auth_*, and a helper that ends in _locked there
--   has its middle name here. Auth/Proof is about proofs, Auth/Sessions and Auth/Challenge about
--   histories, Auth/Update, Auth/Storage and Auth/Lockout about the credential and its setting.
-- - Protocol: src/runtime_macro_protocol.c and its header. Protocol/Frame has the frames and
--   Protocol/State the context. The handlers runtime_macro_protocol_process_* are in Protocol/Macros
--   (the static slots), Protocol/Volatile (the dynamic ones) and Protocol/Login (the authentication);
--   `process_frame` and `process` in Protocol/Dispatch are zmk_runtime_macro_protocol_process on a
--   frame and on bytes. Protocol/Bytes is about the two, Protocol/Invariant about the transactions and
--   the stores over a history, Protocol/Shape about the form of the responses, Protocol/Access and
--   Protocol/Gate about clients without access, and Protocol/Session, Protocol/Serve, Protocol/Set,
--   Protocol/Upload and Protocol/Download about clients with it.
-- - Boot: the settings handler of src/runtime_macro.c as a whole, `settings_handler` and
--   `commit_handler`, which call the authentication and the slots in turn.
-- - Base: shared types, tests on numbers, lists and buffers. Tests: the theorems at concrete inputs.
--
-- Conventions. State is a record, an operation a function from state to state with its `int` as a
-- Result. A mutex makes an operation one step, so it takes one uptime in ms. Numbers are natural
-- numbers, and a conversion to w bits is written `% 2 ^ w`. A pointer that may be NULL is an
-- Option; result pointers are not NULL, and a text has at least the bytes of its length. The calls
-- of the settings library, the work queue and the event bus are effects of a step, with their
-- answers as its arguments, and so are random bytes and HMAC-SHA-256. settings_name_steq, and the
-- HID usages and encoding macros, are those of the headers under tests/host/stubs. A loop recurses
-- on its count of rounds; a decimal numeral has ten digits of fuel, which every 32-bit number
-- fits. A frame is processed in one step, at one uptime and by the one context of the protocol, so
-- the timeout of a dynamic transaction has this context as its owner or none.
--
-- Not modelled: the USB transport of the protocol, logging, and the command line tool.
pub mod Base
pub mod Boot
pub mod Config
pub mod Ascii
pub mod Auth
pub mod Executor
pub mod Slots
pub mod Dynamic
pub mod Protocol
pub mod Static
mod Tests
