-- ===== src/Modules.antt =====
-- pkg/register/register.go and module/module.go: the modules of a server, made once, set up, started
-- and stopped in the order in which they were added.
pub mod Lifecycle
mod Tests
use jian_yu_server_lib.Base.{
  ℕ, ◌≡◌, Bool, true, false, Option, none, some, List, [], ◌∷◌, ◌++◌, map, if◌then◌else◌,
}
use jian_yu_server_lib.Strings.{Str, str_eq}

-- The functions of a module by what a call of them comes to: none for a nil function. SetupAPI and
-- SetupTask return a router, `true`, or nil; Start and Stop return an error, or nil.
pub record Module : Type 0 where
  pub name : Str
  pub setup_api : Option Bool
  pub setup_task : Option Bool
  pub service : Option ℕ
  pub start : Option (Option Str)
  pub stop : Option (Option Str)

-- `Module{}`
abbrev pub no_module : Module
no_module = record {
  name = [];
  setup_api = none;
  setup_task = none;
  service = none;
  start = none;
  stop = none;
}

-- What a call of a module's function does, in the order of the calls.
pub data Call : Type 0 where
  routed tasks_registered started stopped : Str → Call

-- The loop of GetModuleByName and of GetService.
unfoldable pub first_named : Str → List Module → Module
first_named name [] = no_module
first_named name (m ∷ ms) = let rest = first_named name ms in if str_eq m.name name then m else rest

-- One turn of the loop of Setup.
abbrev pub setup_one : Bool → Module → List Call
setup_one setup_task m =
    (elim m.setup_api [ some true ↦ routed m.name ∷ [] | _ ↦ [] ])
    ++ (if setup_task
        then (elim m.setup_task [ some true ↦ tasks_registered m.name ∷ [] | _ ↦ [] ])
        else [])

-- Setup, which returns no error.
unfoldable pub setup : Bool → List Module → List Call
setup setup_task [] = []
setup setup_task (m ∷ ms) = setup_one setup_task m ++ setup setup_task ms

-- Start and Stop are one loop, over the functions that `get` gives.
unfoldable pub run_all :
    (Module → Option (Option Str)) → (Str → Call) → List Module → List Call × Option Str
run_all get call [] = ([], none)
run_all get call (m ∷ ms) =
    let (calls, err) = run_all get call ms in
    elim (get m) [
      | none ↦ (calls, err)
      | some none ↦ (call m.name ∷ calls, err)
      | some (some e) ↦ (call m.name ∷ [], some e)
    ]

-- Start
unfoldable pub start_all : List Module → List Call × Option Str
unfolding run_all
start_all = run_all (λ m. m.start) started

-- Stop
unfoldable pub stop_all : List Module → List Call × Option Str
unfolding run_all
stop_all = run_all (λ m. m.stop) stopped

module _ {ℓ} (Ctx : Type ℓ) where
  -- The variables of the package: `once` has run or not.
  pub record Registry : Type ℓ where
    pub modules : List (Ctx → Module)
    pub once : Bool
    pub module_list : List Module

  abbrev pub empty_registry : Registry
  empty_registry = record { modules = []; once = false; module_list = [] }

  -- AddModule
  abbrev pub add_module : Registry → (Ctx → Module) → Registry
  add_module r module_fnc = record {
    modules = r.modules ++ (module_fnc ∷ []);
    once = r.once;
    module_list = r.module_list;
  }

  -- The loop of GetModules.
  unfoldable pub make_all : Ctx → List (Ctx → Module) → List Module → List Module
  make_all ctx [] made = made
  make_all ctx (m ∷ ms) made = make_all ctx ms (made ++ (m ctx ∷ []))

  -- GetModules
  abbrev pub get_modules : Registry → Ctx → List Module × Registry
  get_modules r ctx =
      if r.once
      then (r.module_list, r)
      else (let list = make_all ctx r.modules r.module_list in
          (list, record { modules = r.modules; once = true; module_list = list }))

  -- GetModuleByName
  abbrev pub get_module_by_name : Registry → Str → Module
  get_module_by_name r name = first_named name r.module_list

  -- GetService
  abbrev pub get_service : Registry → Str → Option ℕ
  get_service r name = (first_named name r.module_list).service
