-- ===== src/Protocol/Invariant.antt =====
-- What every frame keeps: the transactions of a context stay within their buffers, and the static
-- slots and the dynamic store stay valid.
mod Handlers
mod Texts
mod Accounts
mod Access
pub mod Frames
use zmk_module_runtime_macro.Base.{
  ℕ, zero, suc, ◌+◌, ◌-◌, ◌*◌, ◌/◌, ◌%◌, ◌^◌, ◌≤◌, ◌<◌, min, ◌≡◌, refl, sym, ap, ap₂, ◌∙◌, fun_ext,
  ◌≢◌, ◌↔◌, ◌⊎◌, inl, inr, Bool, true, false, not, ◌&&◌, ◌||◌, Option, none, some, List, [], ◌∷◌,
  ◌++◌, map, append-nil, append_assoc, arith, ltb, leb, ◌==◌, if◌then◌else◌, ltb→lt, lt→ltb, leb→le,
  le→leb, leb-false, ltb-false, ==_false, ==_iff, tests, Bool-cases, if_field, Holds, Holds-if,
  Option-cases, length, get_or, take, drop, replicate, length-append, length-take_of_le,
  length-drop, length-replicate, take-append, take-length, take_idem, take_add, take_beyond,
  take-take, drop-drop, take-drop-take, drop-append, get_or-take, All, All-append, All-take,
  bytes_equal, bytes_equal→eq, bytes_equal_refl, update, all_below, all_below_sound, codes,
  decimal_from, decimal, write_at, zeros, length-write_at, take-write_at, get_or-write_at_below,
  get_or-write_at_self, take-write_at_below,
}
use zmk_module_runtime_macro.Config.{
  Config, InRange, dynamic_max_text_len, executor_max_text_len, Errno, einval, enoent, eio, ebusy,
  enospc, enodata, eperm, eagain, eacces, enodev, enotsup, other, Result, ok, err, Status, done,
}
use zmk_module_runtime_macro.Dynamic.{
  Dynamic, clear_slot, cancel, begin_slot, append_slot, dynamic_slot_is_valid,
}
use zmk_module_runtime_macro.Dynamic.Invariant.{
  IsValid, cancel_staging-IsValid, expire_slot-IsValid, expire_due-IsValid, rearm-IsValid,
  begin_locked-IsValid,
}
use zmk_module_runtime_macro.Dynamic.Append.{append_locked-IsValid}
use zmk_module_runtime_macro.Auth.State.{
  AuthState, state_open, state_protected, state_error_locked, Auth, get_state,
}
use zmk_module_runtime_macro.Auth.Ops.{is_authenticated}
use zmk_module_runtime_macro.Protocol.Frame.{Frame, FrameStatus, status_ok, auth_required}
use zmk_module_runtime_macro.Protocol.State.{
  Protocol, Core, Env, password_set_length, zero_protocol, clear_set, clear_password_set,
  release_timeout, forget_dynamic, end_dynamic, clear_dynamic, clear_dynamic_built, discard,
  discard_for_opcode, refresh_dynamic_timeout, dynamic_timeout_work_handler, access_for,
  management_access, after_refresh, refresh_for, refresh_protected_session, drop_transactions,
  note_auth, sync_auth_state,
}

-- A SET transaction: what has been received fits the total, and the total fits the buffer.
pub record SetFits (c : Config) (active : Bool) (slot total received : ℕ) (staging : List ℕ)
    : Type 0 where
  pub room : length staging ≡ c.max_text_len
  pub total_le : total ≤ c.max_text_len
  pub more : active ≡ true → received < total
  pub target : active ≡ true → slot < c.slot_count

-- A PASSWORD_SET transaction.
pub record PasswordFits (active : Bool) (total received : ℕ) (staging : List ℕ) : Type 0 where
  pub room : length staging ≡ password_set_length
  pub whole : active ≡ true → total ≡ password_set_length
  pub more : active ≡ true → received < total

-- A dynamic transaction, whose bytes are in the store.
pub record DynamicFits (c : Config) (active : Bool) (slot total received : ℕ) : Type 0 where
  pub total_le : total ≤ dynamic_max_text_len
  pub more : active ≡ true → received < total
  pub target : active ≡ true → slot < c.dynamic_slot_count

pub record ContextIsValid (c : Config) (p : Protocol) : Type 0 where
  pub set : SetFits c p.set_active p.set_slot p.set_total_length p.set_received_length p.set_staging
  pub password :
      PasswordFits p.password_set_active p.password_set_total_length p.password_set_received_length
        p.password_set_staging
  pub dynamic :
      DynamicFits c p.dynamic_active p.dynamic_slot p.dynamic_total_length p.dynamic_received_length

-- The context and the dynamic store.
pub record CoreIsValid (c : Config) (k : Core) : Type 0 where
  pub context : ContextIsValid c k.protocol
  pub store : IsValid c k.dynamic

-- A test whose outcome each branch may use.
pub Holds-case {ℓ κ} :
    {A : Type ℓ} {P : A → Type κ} (b : Bool) (x y : A)
    → (b ≡ true → Holds P x)
    → (b ≡ false → Holds P y)
    → Holds P (if b then x else y)
Holds-case true x y p q = p refl
Holds-case false x y p q = q refl

module _ (c : Config) where
  pub no_set : SetFits c false 0 0 0 (zeros c.max_text_len)
  no_set = record {
    room = length-replicate c.max_text_len 0;
    total_le = omega arith;
    more = λ h. absurd cc;
    target = λ h. absurd cc;
  }

  pub no_password : PasswordFits false 0 0 (zeros password_set_length)
  no_password = record { room = refl; whole = λ h. absurd cc; more = λ h. absurd cc }

  no_dynamic : DynamicFits c false 0 0 0
  no_dynamic = record { total_le = omega arith; more = λ h. absurd cc; target = λ h. absurd cc }

  pub zero_protocol-ContextIsValid : ContextIsValid c (zero_protocol c)
  zero_protocol-ContextIsValid = record {
    set = no_set;
    password = no_password;
    dynamic = no_dynamic;
  }

  pub clear_set-ContextIsValid :
      (p : Protocol) → ContextIsValid c p → ContextIsValid c (clear_set c p)
  unfolding clear_set
  clear_set-ContextIsValid p h = record { set = no_set; password = h.password; dynamic = h.dynamic }

  pub clear_password_set-ContextIsValid :
      (p : Protocol) → ContextIsValid c p → ContextIsValid c (clear_password_set p)
  unfolding clear_password_set
  clear_password_set-ContextIsValid p h = record {
    set = h.set;
    password = no_password;
    dynamic = h.dynamic;
  }

  forget_dynamic-ContextIsValid :
      (p : Protocol) → ContextIsValid c p → ContextIsValid c (forget_dynamic p)
  unfolding forget_dynamic
  forget_dynamic-ContextIsValid p h = record {
    set = h.set;
    password = h.password;
    dynamic = no_dynamic;
  }

  pub with_protocol :
      (p : Protocol) (k : Core)
      → ContextIsValid c p
      → Holds (CoreIsValid c) k
      → Holds (CoreIsValid c) (record k { protocol = p })
  with_protocol p k hp h = record { at = record { context = hp; store = h.at.store } }

  pub with_auth :
      (a : Auth) (k : Core)
      → Holds (CoreIsValid c) k
      → Holds (CoreIsValid c) (record k { auth = a })
  with_auth a k h = record { at = record { context = h.at.context; store = h.at.store } }

  pub with_store :
      (d : Dynamic) (k : Core)
      → IsValid c d
      → Holds (CoreIsValid c) k
      → Holds (CoreIsValid c) (record k { dynamic = d })
  with_store d k hd h = record { at = record { context = h.at.context; store = hd } }

  with_timer :
      (owner : Bool) (due : Option ℕ) (k : Core)
      → Holds (CoreIsValid c) k
      → Holds (CoreIsValid c) (record k { timeout_owner = owner; timeout_work = due })
  with_timer owner due k h = record { at = record { context = h.at.context; store = h.at.store } }

  pub set_dropped :
      (k : Core)
      → Holds (CoreIsValid c) k
      → Holds (CoreIsValid c) (record k { protocol = clear_set c k.protocol })
  set_dropped k h = with_protocol _ k (clear_set-ContextIsValid k.protocol h.at.context) h

  pub password_dropped :
      (k : Core)
      → Holds (CoreIsValid c) k
      → Holds (CoreIsValid c) (record k { protocol = clear_password_set k.protocol })
  password_dropped k h =
      with_protocol _ k (clear_password_set-ContextIsValid k.protocol h.at.context) h

  release_timeout-CoreIsValid :
      (k : Core) → Holds (CoreIsValid c) k → Holds (CoreIsValid c) (release_timeout k)
  unfolding release_timeout
  release_timeout-CoreIsValid k h =
      Holds-if _ _ _ (record { at = record { context = h.at.context; store = h.at.store } }) h

  pub end_dynamic-CoreIsValid :
      (k : Core) → Holds (CoreIsValid c) k → Holds (CoreIsValid c) (end_dynamic k)
  unfolding end_dynamic
  end_dynamic-CoreIsValid k h =
      let r = release_timeout-CoreIsValid k h in
      with_protocol _ _ (forget_dynamic-ContextIsValid _ r.at.context) r

  pub clear_dynamic-CoreIsValid :
      (now : ℕ) (k : Core) → Holds (CoreIsValid c) k → Holds (CoreIsValid c) (clear_dynamic c now k)
  unfolding clear_dynamic cancel
  clear_dynamic-CoreIsValid now k h =
      let r = release_timeout-CoreIsValid k h in
      record {
        at = record {
          context = forget_dynamic-ContextIsValid _ r.at.context;
          store = cancel_staging-IsValid c _ (expire_due-IsValid c now _ r.at.store);
        };
      }

  pub clear_dynamic_built-CoreIsValid :
      (now : ℕ) (k : Core)
      → Holds (CoreIsValid c) k
      → Holds (CoreIsValid c) (clear_dynamic_built c now k)
  unfolding clear_dynamic_built
  clear_dynamic_built-CoreIsValid now k h = search (Holds-if, clear_dynamic-CoreIsValid)

  pub discard-CoreIsValid :
      (now : ℕ) (k : Core) → Holds (CoreIsValid c) k → Holds (CoreIsValid c) (discard c now k)
  unfolding discard
  discard-CoreIsValid now k h =
      with_protocol _ _ zero_protocol-ContextIsValid (clear_dynamic_built-CoreIsValid now k h)

  pub discard_for_opcode-CoreIsValid :
      (now opcode : ℕ) (k : Core)
      → Holds (CoreIsValid c) k
      → Holds (CoreIsValid c) (discard_for_opcode c now opcode k)
  unfolding discard_for_opcode
  discard_for_opcode-CoreIsValid now opcode k h =
      search (Holds-if, set_dropped, password_dropped, clear_dynamic_built-CoreIsValid) depth 10

  pub dynamic_timeout_work_handler-CoreIsValid :
      (env : Env) (k : Core)
      → Holds (CoreIsValid c) k
      → Holds (CoreIsValid c) (dynamic_timeout_work_handler c env k)
  unfolding dynamic_timeout_work_handler
  dynamic_timeout_work_handler-CoreIsValid env k h = Holds-if _ _ _ (with_timer false none k h) (
      Holds-if _ _ _ (with_timer k.timeout_owner _ k h)
        (clear_dynamic-CoreIsValid env.now _ (with_timer k.timeout_owner none k h)))
