-- ===== src/Env/Tests.antt =====
-- A manager with one environment.
use cqjs.Prelude.{
  true, false, Option, none, some, [], ◌∷◌, Bytes, codes, if◌then◌else◌, str_eq, ◌≡◌, ◌⊎◌, ◌↔◌,
  arith,
}
use cqjs.Prelude.Int.{pos}
use cqjs.Dispatch.{dt_init}
use cqjs.Env.{EnvManager, Platform, env_manager_init, env_find, new_env, env_destroy}
use cqjs.Env.Table.{
  IsValid, Refused, Created, env_manager_init-IsValid, env_create_lem, env_destroy_lem,
}

-- An engine whose state is the code that it has run.
abbrev logging : Platform (Option Bytes)
logging = record {
  new_runtime = true;
  new_context = λ memory stack. true;
  thread_starts = true;
  boot = λ memory stack code. (code, dt_init, []);
}

env_create_lem_example :
    Refused logging env_manager_init (codes "lx") (some (codes "let a")) (pos 64) (pos 8)
    ⊎ Created logging env_manager_init (codes "lx") (some (codes "let a")) (pos 64) (pos 8)
env_create_lem_example =
    env_create_lem logging env_manager_init (codes "lx") (some (codes "let a")) (pos 64) (pos 8)
      env_manager_init-IsValid

abbrev one : EnvManager (Option Bytes)
one = record {
  environments = new_env logging (codes "lx") none (pos 64) (pos 8) ∷ [];
  capacity = 16;
}

one-IsValid : IsValid one
one-IsValid = record {
  limited = omega arith;
  fits = omega arith;
  roomy = omega arith;
  distinct = (tt, tt);
}

env_destroy_lem_example :
    IsValid (env_destroy one (codes "lx")).0
    × (env_find (env_destroy one (codes "lx")).0 (codes "ly")
        ≡ (if str_eq (codes "lx") (codes "ly") then none else env_find one (codes "ly")))
    × (((env_destroy one (codes "lx")).1 ≡ false) ↔ (env_find one (codes "lx") ≡ none))
env_destroy_lem_example = env_destroy_lem one (codes "lx") (codes "ly") one-IsValid
