-- ===== src/Programs/Brackets.antt =====
-- Resources held and servers started, over runs that are put together.
use session_analysis_platfor.Prelude.{
  ◌≡◌, ◌≢◌, refl, ap, ◌∙◌, ◌⊎◌, inl, inr, List, [], ◌∷◌, ◌++◌, append-nil, Option, none, some,
  Bytes, codes, arith,
}
use session_analysis_platfor.Telemetry.{Collector, TelemetryError, unwind}
use session_analysis_platfor.Process.{
  Resource, tracer, meter, Served, Call, acquire, release, describe, connect, install,
  set_propagator, start_runtime, ping, listen, stop_listening, info, warn, fatal, held, served,
}
use session_analysis_platfor.Programs.{
  Serving, listen_fails, interrupted, no_secret, Run, before, deferred, serve, shutdown_answer,
  warned, shutdown_telemetry, main_program,
}

pub held-append :
    (xs ys : List Call) (o p : List Resource) → held xs o ≡ some p → held (xs ++ ys) o ≡ held ys p
unfolding held
held-append [] ys o p h = cc h
held-append (acquire r ∷ xs) ys o p h = held-append xs ys (r ∷ o) p h
held-append (release r ∷ xs) ys [] p h = cc h
held-append (release r ∷ xs) ys (q ∷ o) p h = ground (arith, held-append xs ys o p)
held-append (describe as_ ∷ xs) ys o p h = held-append xs ys o p h
held-append (connect r os ∷ xs) ys o p h = held-append xs ys o p h
held-append (install r ∷ xs) ys o p h = held-append xs ys o p h
held-append (set_propagator ∷ xs) ys o p h = held-append xs ys o p h
held-append (start_runtime ∷ xs) ys o p h = held-append xs ys o p h
held-append (ping ∷ xs) ys o p h = held-append xs ys o p h
held-append (listen s ∷ xs) ys o p h = held-append xs ys o p h
held-append (stop_listening ∷ xs) ys o p h = held-append xs ys o p h
held-append (info m ∷ xs) ys o p h = held-append xs ys o p h
held-append (warn m ∷ xs) ys o p h = held-append xs ys o p h
held-append (fatal m ∷ xs) ys o p h = held-append xs ys o p h

pub served-append : (xs ys : List Call) → served (xs ++ ys) ≡ served xs ++ served ys
unfolding served
served-append [] ys = refl
served-append (listen s ∷ xs) ys = ap (λ ss. s ∷ ss) (served-append xs ys)
served-append (acquire r ∷ xs) ys = served-append xs ys
served-append (release r ∷ xs) ys = served-append xs ys
served-append (describe as_ ∷ xs) ys = served-append xs ys
served-append (connect r os ∷ xs) ys = served-append xs ys
served-append (install r ∷ xs) ys = served-append xs ys
served-append (set_propagator ∷ xs) ys = served-append xs ys
served-append (start_runtime ∷ xs) ys = served-append xs ys
served-append (ping ∷ xs) ys = served-append xs ys
served-append (stop_listening ∷ xs) ys = served-append xs ys
served-append (info m ∷ xs) ys = served-append xs ys
served-append (warn m ∷ xs) ys = served-append xs ys
served-append (fatal m ∷ xs) ys = served-append xs ys

-- What a run leaves held is what was held before it.
abbrev pub Keeps : List Resource → Run → Type 0
Keeps base (calls, e) = held calls base ≡ some base

pub around-Keeps :
    (base mid : List Resource) (opening closing : List Call) (body : Run)
    → held opening base ≡ some mid
    → held closing mid ≡ some base
    → Keeps mid body
    → Keeps base (before opening (deferred closing body))
around-Keeps base mid opening closing (calls, e) o c k =
    held-append opening (calls ++ closing) base mid o ∙ held-append calls closing mid mid k ∙ c

pub serve-Keeps : (base : List Resource) (s : Served) (how : Serving) → Keeps base (serve s how)
unfolding serve held
serve-Keeps base s (listen_fails e) = refl
serve-Keeps base s (interrupted answer) = refl

held-warned : (base : List Resource) (es : List TelemetryError) → held (warned es) base ≡ some base
unfolding warned held
held-warned base [] = refl
held-warned base (e ∷ es) = refl

pub held-shutdown_telemetry :
    (base : List Resource) (c : Collector) (rs : List Resource)
    → held (unwind c rs).0 (meter ∷ tracer ∷ base) ≡ some base
    → held (shutdown_telemetry c rs) (meter ∷ tracer ∷ base) ≡ some base
unfolding shutdown_telemetry
held-shutdown_telemetry base c rs h =
    held-append (unwind c rs).0 _ _ _ h ∙ held-warned base (unwind c rs).1

-- A run has started no server and returns an error, or it has started this one, and `P` holds; its
-- error is not that of a missing secret.
abbrev pub ServesAtMost : Type 0 → Served → Run → Type 0
ServesAtMost P s (calls, e) =
    (e ≢ some no_secret) × (((served calls ≡ []) × (e ≢ none)) ⊎ (P × (served calls ≡ s ∷ [])))

pub around-ServesAtMost :
    {P : Type 0} (s : Served) (opening closing : List Call) (body : Run)
    → served opening ≡ []
    → served closing ≡ []
    → ServesAtMost P s body
    → ServesAtMost P s (before opening (deferred closing body))
around-ServesAtMost s opening closing (calls, e) o c (n, k) =
    let q : served (opening ++ (calls ++ closing)) ≡ served calls =
      served-append opening (calls ++ closing)
      ∙ ap (λ ss. ss ++ served (calls ++ closing)) o
      ∙ served-append calls closing
      ∙ ap (λ ss. served calls ++ ss) c
      ∙ append-nil (served calls) in
    (n, elim k [ inl (z, f) ↦ inl (q ∙ z, f) | inr (p, z) ↦ inr (p, q ∙ z) ])

pub ServesAtMost-map :
    {P Q : Type 0} (s : Served) (body : Run)
    → (P → Q)
    → ServesAtMost P s body
    → ServesAtMost Q s body
ServesAtMost-map s (calls, e) f (n, k) = (n, elim k [ inl z ↦ inl z | inr (p, z) ↦ inr (f p, z) ])

not_missing : (a : Option Bytes) → shutdown_answer a ≢ some no_secret
unfolding shutdown_answer
not_missing none h = cc h
not_missing (some e) h = cc h

pub serve-ServesAtMost : (s : Served) (how : Serving) → ServesAtMost (Unit {0}) s (serve s how)
unfolding serve served
serve-ServesAtMost s (listen_fails e) = ((λ h. cc h), inr (tt, refl))
serve-ServesAtMost s (interrupted answer) = (not_missing answer, inr (tt, refl))

served-warned : (es : List TelemetryError) → served (warned es) ≡ []
unfolding warned served
served-warned [] = refl
served-warned (e ∷ es) = refl

pub served-shutdown_telemetry :
    (c : Collector) (rs : List Resource)
    → rs ≡ tracer ∷ meter ∷ []
    → served (shutdown_telemetry c rs) ≡ []
unfolding shutdown_telemetry unwind served
served-shutdown_telemetry c rs e = rw e (served-warned _)

-- a program leaves held what its run does
pub held-main_program :
    (base : List Resource) (body : Run)
    → Keeps base body
    → held (main_program body).0 base ≡ some base
unfolding main_program held
held-main_program base (calls, none) k = k
held-main_program base (calls, some e) k =
    held-append calls (fatal (codes "fatal") ∷ []) base base k
