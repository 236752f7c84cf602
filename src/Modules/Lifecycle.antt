-- ===== src/Modules/Lifecycle.antt =====
-- Modules are made once, and run in order up to the first error.
use jian_yu_server_lib.Base.{
  ◌≡◌, refl, ap, ◌∙◌, sym, true, Option, none, some, List, [], ◌∷◌, ◌++◌, append_assoc, append-nil,
  All,
}
use jian_yu_server_lib.Strings.{Str}
use package.jian_yu_server_lib.Modules.{
  Module, Call, started, stopped, Registry, empty_registry, add_module, make_all, get_modules,
  run_all, start_all, stop_all,
}

module _ {ℓ} {Ctx : Type ℓ} where
  abbrev pub add_all : Registry Ctx → List (Ctx → Module) → Registry Ctx
  add_all r [] = r
  add_all r (f ∷ fs) = add_all (add_module Ctx r f) fs

  abbrev pub apply_all : Ctx → List (Ctx → Module) → List Module
  apply_all ctx [] = []
  apply_all ctx (f ∷ fs) = f ctx ∷ apply_all ctx fs

  make_all_lem :
      (ctx : Ctx) (fs : List (Ctx → Module)) (made : List Module)
      → make_all Ctx ctx fs made ≡ made ++ apply_all ctx fs
  unfolding make_all
  make_all_lem ctx [] made = sym (append-nil made)
  make_all_lem ctx (f ∷ fs) made =
      make_all_lem ctx fs (made ++ (f ctx ∷ [])) ∙ append_assoc made (f ctx ∷ []) (apply_all ctx fs)

  add_all_lem :
      (r : Registry Ctx) (fs : List (Ctx → Module))
      → add_all r fs
        ≡ record { modules = r.modules ++ fs; once = r.once; module_list = r.module_list }
  add_all_lem r [] = ap (λ ms. record r { modules = ms }) (sym (append-nil r.modules))
  add_all_lem r (f ∷ fs) =
      add_all_lem (add_module Ctx r f) fs
      ∙ ap (λ ms. record r { modules = ms }) (append_assoc r.modules (f ∷ []) fs)

  -- Rounds of adding modules and then calling GetModules with a context.
  abbrev pub rounds : Registry Ctx → List (List (Ctx → Module) × Ctx) → Registry Ctx
  rounds r [] = r
  rounds r ((fs, ctx) ∷ more) = rounds (get_modules Ctx (add_all r fs) ctx).1 more

  get_modules-again :
      (r : Registry Ctx) (fs : List (Ctx → Module)) (ctx : Ctx)
      → r.once ≡ true
      → ((get_modules Ctx (add_all r fs) ctx).0 ≡ r.module_list)
        × ((get_modules Ctx (add_all r fs) ctx).1.once ≡ true)
        × ((get_modules Ctx (add_all r fs) ctx).1.module_list ≡ r.module_list)
  get_modules-again r fs ctx h = rw (add_all_lem r fs, h) (refl, refl, refl)

  rounds-kept :
      (r : Registry Ctx) (more : List (List (Ctx → Module) × Ctx))
      → r.once ≡ true
      → ((rounds r more).once ≡ true) × ((rounds r more).module_list ≡ r.module_list)
  rounds-kept r [] h = (h, refl)
  rounds-kept r ((fs, ctx) ∷ more) h =
      let (_, once, same) = get_modules-again r fs ctx h in
      let (still, list) = rounds-kept (get_modules Ctx (add_all r fs) ctx).1 more once in
      (still, list ∙ same)

  -- The first call of GetModules makes the modules that were added, in their order and with its
  -- context; every later call returns these, however often modules are added and GetModules is called
  -- in between, and with whatever context.
  pub made_once :
      (fs : List (Ctx → Module)) (ctx : Ctx) (more : List (List (Ctx → Module) × Ctx))
      (last : List (Ctx → Module)) (later : Ctx)
      → ((get_modules Ctx (add_all (empty_registry Ctx) fs) ctx).0 ≡ apply_all ctx fs)
        × ((get_modules Ctx
              (add_all (rounds (get_modules Ctx (add_all (empty_registry Ctx) fs) ctx).1 more) last)
              later).0
            ≡ apply_all ctx fs)
  made_once fs ctx more last later =
      let made : Registry Ctx = record {
        modules = fs;
        once = true;
        module_list = make_all Ctx ctx fs [];
      } in
      let first = add_all_lem (empty_registry Ctx) fs in
      let (once, list) = rounds-kept made more refl in
      (
        ap (λ r. (get_modules Ctx r ctx).0) first ∙ make_all_lem ctx fs [],
        ap (λ r. (get_modules Ctx (add_all (rounds (get_modules Ctx r ctx).1 more) last) later).0)
              first
            ∙ ((get_modules-again (rounds made more) last later once).0
                ∙ (list ∙ make_all_lem ctx fs [])),
      )

-- A function of a module that is nil or returns nil.
abbrev pub Fine : Option (Option Str) → Type 0
Fine none = Unit
Fine (some none) = Unit
Fine (some (some e)) = ⊥

abbrev pub call_of : (Str → Call) → Module → Option (Option Str) → List Call
call_of call m none = []
call_of call m (some r) = call m.name ∷ []

module _ (get : Module → Option (Option Str)) (call : Str → Call) where
  abbrev pub calls_of : List Module → List Call
  calls_of [] = []
  calls_of (m ∷ ms) = call_of call m (get m) ++ calls_of ms

  run_step :
      (m : Module) (ms : List Module) (cs : List Call) (err : Option Str) (o : Option (Option Str))
      → get m ≡ o
      → Fine o
      → run_all get call ms ≡ (cs, err)
      → run_all get call (m ∷ ms) ≡ (call_of call m o ++ cs, err)
  unfolding run_all
  run_step m ms cs err none e fine h = rw (run_all, e, h) refl
  run_step m ms cs err (some none) e fine h = rw (run_all, e, h) refl
  run_step m ms cs err (some (some x)) e fine h = absurd fine

  run_all-Fine :
      (ms : List Module) → All (λ m. Fine (get m)) ms → run_all get call ms ≡ (calls_of ms, none)
  unfolding run_all
  run_all-Fine [] h = refl
  run_all-Fine (m ∷ ms) h = run_step m ms (calls_of ms) none (get m) refl h.0 (run_all-Fine ms h.1)

  run_all_failing :
      (before : List Module) (m : Module) (after : List Module) (e : Str)
      → All (λ m. Fine (get m)) before
      → get m ≡ some (some e)
      → run_all get call (before ++ (m ∷ after)) ≡ (calls_of before ++ (call m.name ∷ []), some e)
  unfolding run_all
  run_all_failing [] m after e h he = rw (run_all, he) refl
  run_all_failing (b ∷ before) m after e h he =
      run_step b (before ++ (m ∷ after)) (calls_of before ++ (call m.name ∷ [])) (some e) (get b)
        refl h.0 (run_all_failing before m after e h.1 he)
      ∙ ap (λ cs. (cs, some e))
          (sym (append_assoc (call_of call b (get b)) (calls_of before) (call m.name ∷ [])))

-- Start and Stop each call their functions of the modules in order. If none fails they return nil;
-- if a module's function fails they return its error, and no later module is called. What Start
-- needs of the modules says nothing of their Stop, and the other way round.
pub start_stop :
    (before : List Module) (m : Module) (after : List Module) (e : Str) (before' : List Module)
    (m' : Module) (after' : List Module) (e' : Str)
    → All (λ m. Fine m.start) before
    → m.start ≡ some (some e)
    → All (λ m. Fine m.stop) before'
    → m'.stop ≡ some (some e')
    → (start_all before ≡ (calls_of (λ m. m.start) started before, none))
      × (start_all (before ++ (m ∷ after))
          ≡ (calls_of (λ m. m.start) started before ++ (started m.name ∷ []), some e))
      × (stop_all before' ≡ (calls_of (λ m. m.stop) stopped before', none))
      × (stop_all (before' ++ (m' ∷ after'))
          ≡ (calls_of (λ m. m.stop) stopped before' ++ (stopped m'.name ∷ []), some e'))
unfolding start_all stop_all
start_stop before m after e before' m' after' e' start_fine start_fails stop_fine stop_fails = (
  run_all-Fine (λ m. m.start) started before start_fine,
  run_all_failing (λ m. m.start) started before m after e start_fine start_fails,
  run_all-Fine (λ m. m.stop) stopped before' stop_fine,
  run_all_failing (λ m. m.stop) stopped before' m' after' e' stop_fine stop_fails,
)
