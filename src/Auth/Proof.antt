-- ===== src/Auth/Proof.antt =====
-- What a proof does: when it is accepted, that it uses up its challenge, and the cooldown after a
-- wrong one.
use zmk_module_runtime_macro.Base.{
  ℕ, zero, suc, ◌+◌, ◌*◌, ◌^◌, ◌≤◌, ◌<◌, min, ◌≡◌, refl, sym, ap, ◌∙◌, ◌≢◌, ◌↔◌, inl, inr, true,
  false, not, ◌||◌, Option, none, some, List, ◌++◌, arith, ltb, leb, ◌==◌, if◌then◌else◌, lt→ltb,
  ==_false, Bool-cases, take, bytes_equal, bytes_equal→eq, bytes_equal_refl,
}
use zmk_module_runtime_macro.Config.{
  Config, Errno, einval, enoent, eio, enodata, eperm, eagain, eacces, Result, ok, err, Status, done,
}
use zmk_module_runtime_macro.Auth.State.{
  AuthState, state_open, state_protected, state_error_locked, Auth, nonce_size, proof_size,
  auth_domain, failure_count_max, clear_challenge, clear_session, clear_failure, expire_session,
  cooldown_active, cooldown_seconds, record_failure,
}
use zmk_module_runtime_macro.Auth.Ops.{
  Hmac, constant_time_equal, judge_proof, proof_for, verify_proof, challenge_for,
  generate_challenge,
}

done_not_err : (e : Errno) → done ≢ err e
done_not_err e h = cc

abbrev failed : Errno → Status
failed e = err e

enoent_not_eacces : failed enoent ≢ failed eacces
enoent_not_eacces h = cc

abbrev next_count : ℕ → ℕ
next_count n = if ltb n failure_count_max then n + 1 else n

backoff :
    (n : ℕ)
    → n ≤ failure_count_max
    → (next_count n ≡ min (n + 1) 4) × (cooldown_seconds (next_count n) ≡ min (2 ^ n) 8)
unfolding cooldown_seconds
backoff zero h = (refl, refl)
backoff (suc zero) h = (refl, refl)
backoff (suc (suc zero)) h = (refl, refl)
backoff (suc (suc (suc zero))) h = (refl, refl)
backoff (suc (suc (suc (suc zero)))) h = (refl, refl)
backoff (suc (suc (suc (suc (suc n))))) h = absurd (omega arith)

pub expire_session-challenge :
    (now : ℕ) (a : Auth)
    → a.challenge_active ≡ false
    → (expire_session now a).challenge_active ≡ false
unfolding expire_session clear_challenge clear_session
expire_session-challenge now a h =
    elim (Bool-cases (not a.session_active || ltb now a.session_deadline_ms)) [
      | inl kept ↦ rw kept h
      | inr over ↦ rw over
    ]

module _ (c : Config) where
  -- What an accepted proof shows.
  abbrev pub Proves : Hmac → ℕ → List ℕ → Auth → Type 0
  Proves hmac now proof a =
      (a.state ≡ state_protected)
      × (a.challenge_active ≡ true)
      × (now < a.challenge_deadline_ms)
      × ((expected : List ℕ) × (hmac a.credential.key (auth_domain ++ a.challenge) ≡ ok expected)
          × (take proof_size expected ≡ take proof_size proof))

  judge_proof-done :
      (now : ℕ) (proof : List ℕ) (h : Result (List ℕ)) (a : Auth)
      → (judge_proof c now proof h a).0 ≡ done
      → (expected : List ℕ) × (h ≡ ok expected) × (take proof_size expected ≡ take proof_size proof)
  unfolding judge_proof constant_time_equal
  judge_proof-done now proof (err e) a d = absurd (done_not_err eio (sym d))
  judge_proof-done now proof (ok expected) a d =
      elim (Bool-cases (bytes_equal (take proof_size expected) (take proof_size proof))) [
        | inl same ↦
            (expected, refl, bytes_equal→eq (take proof_size expected) (take proof_size proof) same)
        | inr differ ↦ absurd (done_not_err eacces (sym (simp differ at d)))
      ]

  judge_proof_matches :
      (now : ℕ) (proof expected : List ℕ) (a : Auth)
      → take proof_size expected ≡ take proof_size proof
      → (judge_proof c now proof (ok expected) a).0 ≡ done
  unfolding judge_proof constant_time_equal
  judge_proof_matches now proof expected a e =
      let same : bytes_equal (take proof_size expected) (take proof_size proof) ≡ true =
        rw e (bytes_equal_refl (take proof_size proof)) in
      simp same

  proof_for_iff :
      (s : AuthState) (hmac : Hmac) (now : ℕ) (proof : List ℕ) (a : Auth)
      → a.state ≡ s
      → ((proof_for c s hmac now proof a).0 ≡ done) ↔ Proves hmac now proof a
  unfolding proof_for
  proof_for_iff state_open hmac now proof a e = (
    λ d. absurd (done_not_err enodata (sym d)),
    λ p. let q : a.state ≡ state_protected = p.0 in cc,
  )
  proof_for_iff state_error_locked hmac now proof a e =
      (λ d. absurd (done_not_err eperm (sym d)), λ p. let q : a.state ≡ state_protected = p.0 in cc)
  proof_for_iff state_protected hmac now proof a e =
      elim (Bool-cases (not a.challenge_active || leb a.challenge_deadline_ms now)) [
        | inl stale ↦ (
          λ d. absurd (done_not_err enoent (sym (simp stale at d))),
          λ p. let (q, active, early, rest) = p in absurd (ground (arith, active, early)),
        )
        | inr fresh ↦ (
          λ d. (
            e,
            ground arith,
            ground arith,
            judge_proof-done now proof (hmac a.credential.key (auth_domain ++ a.challenge))
                (clear_session (clear_challenge a)) (simp fresh at d),
          ),
          λ p.
              let (q, active, early, rest) = p in
              let (expected, computed, same) = rest in
              simp (fresh, computed)
                (judge_proof_matches now proof expected (clear_session (clear_challenge a)) same),
        )
      ]

  -- A proof of the right size is accepted exactly if, once an expired session is dropped, the state is
  -- protected, a challenge is active and not past its deadline, and the HMAC of the domain and the
  -- challenge under the stored key is computed and begins with the proof.
  pub verify_proof_iff :
      (hmac : Hmac) (now : ℕ) (proof : List ℕ) (a : Auth)
      → ((verify_proof c hmac now (some proof) proof_size a).0 ≡ done)
        ↔ Proves hmac now proof (expire_session now a)
  unfolding verify_proof
  verify_proof_iff hmac now proof a =
      proof_for_iff (expire_session now a).state hmac now proof (expire_session now a) refl

  expire_session-state : (now : ℕ) (a : Auth) → (expire_session now a).state ≡ a.state
  unfolding expire_session clear_challenge clear_session
  expire_session-state now a =
      elim (Bool-cases (not a.session_active || ltb now a.session_deadline_ms)) [
        | inl kept ↦ rw kept
        | inr over ↦ rw over
      ]

  judge_proof-challenge :
      (now : ℕ) (proof : List ℕ) (h : Result (List ℕ)) (a : Auth)
      → (judge_proof c now proof h a).1.challenge_active ≡ a.challenge_active
  unfolding judge_proof record_failure clear_failure
  judge_proof-challenge now proof (err e) a = refl
  judge_proof-challenge now proof (ok expected) a =
      elim (Bool-cases (constant_time_equal expected proof proof_size)) [
        | inl same ↦ rw same
        | inr differ ↦ rw differ
      ]

  proof_for-challenge :
      (s : AuthState) (hmac : Hmac) (now : ℕ) (proof : List ℕ) (a : Auth)
      → s ≡ state_protected
      → (proof_for c s hmac now proof a).1.challenge_active ≡ false
  unfolding proof_for clear_challenge clear_session
  proof_for-challenge state_open hmac now proof a e = cc
  proof_for-challenge state_error_locked hmac now proof a e = cc
  proof_for-challenge state_protected hmac now proof a e =
      elim (Bool-cases (not a.challenge_active || leb a.challenge_deadline_ms now)) [
        | inl stale ↦ rw stale
        | inr fresh ↦ simp fresh (
            judge_proof-challenge now proof (hmac a.credential.key (auth_domain ++ a.challenge))
              (clear_session (clear_challenge a)))
      ]

  pub no_challenge :
      (hmac : Hmac) (now : ℕ) (proof : Option (List ℕ)) (size : ℕ) (a : Auth)
      → a.challenge_active ≡ false
      → (verify_proof c hmac now proof size a).0 ≢ done
  unfolding verify_proof
  no_challenge hmac now none size a h d = done_not_err einval (sym d)
  no_challenge hmac now (some proof) size a h d = elim (Bool-cases (not (size == proof_size))) [
    | inl bad ↦ done_not_err einval (sym (simp bad at d))
    | inr fine ↦
        let b = expire_session now a in
        let p = (proof_for_iff b.state hmac now proof b refl).0 (simp fine at d) in
        let off : b.challenge_active ≡ false = expire_session-challenge now a h in
        let on : b.challenge_active ≡ true = p.1 in cc
  ]

  pub verify_proof-challenge :
      (hmac : Hmac) (now : ℕ) (proof : List ℕ) (a : Auth)
      → a.state ≡ state_protected
      → (verify_proof c hmac now (some proof) proof_size a).1.challenge_active ≡ false
  unfolding verify_proof
  verify_proof-challenge hmac now proof a e =
      proof_for-challenge (expire_session now a).state hmac now proof (expire_session now a)
        (expire_session-state now a ∙ e)

  judge_proof_wrong :
      (now : ℕ) (proof : List ℕ) (h : Result (List ℕ)) (a : Auth)
      → (judge_proof c now proof h a).0 ≡ err eacces
      → (judge_proof c now proof h a).1 ≡ record_failure now a
  unfolding judge_proof
  judge_proof_wrong now proof (err e) a d = cc
  judge_proof_wrong now proof (ok expected) a d =
      elim (Bool-cases (constant_time_equal expected proof proof_size)) [
        | inl same ↦ absurd (done_not_err eacces (simp same at d))
        | inr differ ↦ simp differ
      ]

  proof_for_wrong :
      (s : AuthState) (hmac : Hmac) (now : ℕ) (proof : List ℕ) (a : Auth)
      → (proof_for c s hmac now proof a).0 ≡ err eacces
      → (s ≡ state_protected)
        × ((proof_for c s hmac now proof a).1
            ≡ record_failure now (clear_session (clear_challenge a)))
  unfolding proof_for
  proof_for_wrong state_open hmac now proof a d = cc
  proof_for_wrong state_error_locked hmac now proof a d = cc
  proof_for_wrong state_protected hmac now proof a d =
      elim (Bool-cases (not a.challenge_active || leb a.challenge_deadline_ms now)) [
        | inl stale ↦ absurd (enoent_not_eacces (simp stale at d))
        | inr fresh ↦ (
          refl,
          simp fresh (
              judge_proof_wrong now proof (hmac a.credential.key (auth_domain ++ a.challenge))
                (clear_session (clear_challenge a)) (simp fresh at d)),
        )
      ]

  cooldown-eagain :
      (s : AuthState) (t : ℕ) (random : Result (List ℕ)) (a : Auth)
      → s ≡ state_protected
      → cooldown_active t a ≡ true
      → (challenge_for c s t random a).0 ≡ err eagain
  unfolding challenge_for
  cooldown-eagain state_open t random a e h = cc
  cooldown-eagain state_error_locked t random a e h = cc
  cooldown-eagain state_protected t random a e h = simp h

  expire_session-failure_count :
      (now : ℕ) (a : Auth) → (expire_session now a).failure_count ≡ a.failure_count
  unfolding expire_session clear_challenge clear_session
  expire_session-failure_count now a =
      elim (Bool-cases (not a.session_active || ltb now a.session_deadline_ms)) [
        | inl kept ↦ rw kept
        | inr over ↦ rw over
      ]

  expire_session-off : (now : ℕ) (a : Auth) → a.session_active ≡ false → expire_session now a ≡ a
  unfolding expire_session
  expire_session-off now a h = simp h

  record_failure-eagain :
      (now t : ℕ) (random : Result (List ℕ)) (a : Auth)
      → a.session_active ≡ false
      → a.state ≡ state_protected
      → a.failure_count ≤ failure_count_max
      → t < (record_failure now a).cooldown_deadline_ms
      → (generate_challenge c t nonce_size random (record_failure now a)).0 ≡ err eagain
  record_failure-eagain now t random a off p h early =
      unfold generate_challenge in
      rw (expire_session-off t (record_failure now a) (unfold record_failure in off)) (
        cooldown-eagain (record_failure now a).state t random (record_failure now a)
          (unfold record_failure in p) active)
    where
      counted : (record_failure now a).failure_count ≢ 0
      counted z =
          let n : (record_failure now a).failure_count ≡ min (a.failure_count + 1) 4 =
            unfold record_failure in (backoff a.failure_count h).0 in
          omega (arith, n, z)

      active : cooldown_active t (record_failure now a) ≡ true
      active =
          unfold cooldown_active in
          rw (
            ==_false (record_failure now a).failure_count 0 counted,
            lt→ltb t (record_failure now a).cooldown_deadline_ms early,
          )

  -- After a wrong proof the failures are counted, up to four; the cooldown is 1, 2, 4 and then 8
  -- seconds, and while it lasts no challenge is given out.
  pub verify_proof_backoff :
      (hmac : Hmac) (now : ℕ) (proof : List ℕ) (a : Auth)
      → a.failure_count ≤ failure_count_max
      → (verify_proof c hmac now (some proof) proof_size a).0 ≡ err eacces
      → let a' = (verify_proof c hmac now (some proof) proof_size a).1 in
        (a'.failure_count ≡ min (a.failure_count + 1) 4)
        × (a'.cooldown_deadline_ms ≡ now + min (2 ^ a.failure_count) 8 * 1000)
        × ((t : ℕ) (random : Result (List ℕ))
            → t < a'.cooldown_deadline_ms
            → (generate_challenge c t nonce_size random a').0 ≡ err eagain)
  verify_proof_backoff hmac now proof a h d = rw whole (
    unfold record_failure clear_session clear_challenge in
        (backoff b.failure_count small).0 ∙ ap (λ n. min (n + 1) 4) same,
    unfold record_failure clear_session clear_challenge in
        ap (λ n. now + n * 1000) ((backoff b.failure_count small).1 ∙ ap (λ n. min (2 ^ n) 8) same),
    λ t random.
        record_failure-eagain now t random q (unfold clear_session clear_challenge in refl)
          (unfold clear_session clear_challenge in wrong.0)
          (unfold clear_session clear_challenge in small),
  )
    where
      b : Auth
      b = expire_session now a

      q : Auth
      q = clear_session (clear_challenge b)

      same : b.failure_count ≡ a.failure_count
      same = expire_session-failure_count now a

      small : b.failure_count ≤ failure_count_max
      small = rw same h

      wrong :
          (b.state ≡ state_protected)
          × ((proof_for c b.state hmac now proof b).1 ≡ record_failure now q)
      wrong = proof_for_wrong b.state hmac now proof b (unfold verify_proof in d)

      whole : (verify_proof c hmac now (some proof) proof_size a).1 ≡ record_failure now q
      whole = unfold verify_proof in wrong.1
