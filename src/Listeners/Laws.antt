-- ===== src/Listeners/Laws.antt =====
-- Which listeners are kept, and which are called.
use jian_yu_server_lib.Base.{
  ◌≡◌, ◌≢◌, refl, ap, ◌∙◌, sym, All, false, List, [], ◌∷◌, ◌++◌, append_assoc, append-nil, arith,
  length, ltb, Bool-cases, inl, inr,
}
use jian_yu_server_lib.Strings.{Str, str_eq}
use jian_yu_server_lib.Strings.Laws.{str_eq_iff}
use package.jian_yu_server_lib.Listeners.{
  Listeners, get_event_listeners, add_event_listener, jy_add_event_listener,
}

-- A registration: by AddEventListener or by JyAddEventListener.
pub data Registration (E : Type 0) : Type 0 where
  plain once_only : Str → E → Registration E

-- A registration for the event by JyAddEventListener, or for another event.
abbrev pub IsOnce : {E : Type 0} → Str → Registration E → Type 0
IsOnce event (plain name listener) = name ≢ event
IsOnce event (once_only name listener) = Unit

module _ {E M O : Type 0} where
  abbrev pub register : Listeners E M O → Registration E → Listeners E M O
  register c (plain event listener) = add_event_listener c event listener
  register c (once_only event listener) = jy_add_event_listener c event listener

  abbrev pub register_all : Listeners E M O → List (Registration E) → Listeners E M O
  register_all c [] = c
  register_all c (r ∷ rs) = register_all (register c r) rs

  add_event_listener-same :
      (c : Listeners E M O) (event : Str) (l : E)
      → get_event_listeners (add_event_listener c event l) event
        ≡ get_event_listeners c event ++ (l ∷ [])
  add_event_listener-same c event l = ground (arith, str_eq_iff event event)

  add_event_listener-other :
      (c : Listeners E M O) (name event : Str) (l : E)
      → event ≢ name
      → get_event_listeners (add_event_listener c name l) event ≡ get_event_listeners c event
  add_event_listener-other c name event l ne = ground (arith, str_eq_iff event name)

  add_event_listener_cases :
      (c : Listeners E M O) (name event : Str) (l : E)
      → (added : List E) × (get_event_listeners (add_event_listener c name l) event
          ≡ get_event_listeners c event ++ added)
  add_event_listener_cases c name event l = elim (Bool-cases (str_eq event name)) [
    | inl e ↦ (l ∷ [], rw e (ap (λ n. c.events n ++ (l ∷ [])) (sym ((str_eq_iff event name).0 e))))
    | inr e ↦ ([], rw e (sym (append-nil (c.events event))))
  ]

  register_cases :
      (c : Listeners E M O) (r : Registration E) (event : Str)
      → (added : List E) × (get_event_listeners (register c r) event
          ≡ get_event_listeners c event ++ added)
  register_cases c (plain name l) event = add_event_listener_cases c name event l
  register_cases c (once_only name l) event = elim (Bool-cases (ltb (length (c.events name)) 1)) [
    | inl e ↦ rw (register, jy_add_event_listener, e) (add_event_listener_cases c name event l)
    | inr e ↦ ([], rw (register, jy_add_event_listener, e) (sym (append-nil (c.events event))))
  ]

  -- Listeners are never removed: registering more of them only adds to those of an event.
  pub register_all_adds :
      (c : Listeners E M O) (rs : List (Registration E)) (event : Str)
      → (added : List E) × (get_event_listeners (register_all c rs) event
          ≡ get_event_listeners c event ++ added)
  register_all_adds c [] event = ([], sym (append-nil (c.events event)))
  register_all_adds c (r ∷ rs) event =
      let (a, ea) = register_cases c r event in
      let (b, eb) = register_all_adds (register c r) rs event in
      (a ++ b, eb ∙ (ap (λ l. l ++ b) ea ∙ append_assoc (c.events event) a b))

  register-one :
      (c : Listeners E M O) (r : Registration E) (event : Str) (l : E)
      → IsOnce event r
      → get_event_listeners c event ≡ l ∷ []
      → get_event_listeners (register c r) event ≡ l ∷ []
  register-one c (plain name l') event l other h =
      add_event_listener-other c name event l' (λ e. other (sym e)) ∙ h
  register-one c (once_only name l') event l once h = elim (Bool-cases (str_eq event name)) [
    | inl e ↦
        let same : event ≡ name = (str_eq_iff event name).0 e in
        let full : ltb (length (c.events name)) 1 ≡ false =
          ap (λ n. ltb (length (c.events n)) 1) (sym same) ∙ ap (λ ls. ltb (length ls) 1) h in
        rw (register, jy_add_event_listener, full) h
    | inr e ↦ elim (Bool-cases (ltb (length (c.events name)) 1)) [
      | inl f ↦ rw (register, jy_add_event_listener, f, e) h
      | inr f ↦ rw (register, jy_add_event_listener, f) h
    ]
  ]

  register_all-one :
      (c : Listeners E M O) (rs : List (Registration E)) (event : Str) (l : E)
      → All (IsOnce event) rs
      → get_event_listeners c event ≡ l ∷ []
      → get_event_listeners (register_all c rs) event ≡ l ∷ []
  register_all-one c [] event l once h = h
  register_all-one c (r ∷ rs) event l once h =
      register_all-one (register c r) rs event l once.1 (register-one c r event l once.0 h)

  -- An event for which JyAddEventListener alone is used has one listener, the first that was
  -- registered, whatever is registered for it and for other events afterwards.
  pub jy_add_event_listener_first :
      (c : Listeners E M O) (event : Str) (l : E) (rs : List (Registration E))
      → get_event_listeners c event ≡ []
      → All (IsOnce event) rs
      → get_event_listeners (register_all (jy_add_event_listener c event l) rs) event ≡ l ∷ []
  jy_add_event_listener_first c event l rs empty once =
      register_all-one (jy_add_event_listener c event l) rs event l once
        (rw (jy_add_event_listener, empty, (str_eq_iff event event).1 refl) refl)
