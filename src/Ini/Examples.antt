-- ===== src/Ini/Examples.antt =====
-- The ini parser of xdrpp/iniparse.cc at a concrete file.
use cs244b.Base.{◌≡◌, refl, false, none, some, List, [], ◌∷◌, ◌++◌, All}
use cs244b.Base.Assoc.{find, text_eq}
use cs244b.Ini.{Ini, ini_runparse}
use cs244b.Ini.Files.{Section, Registered, print, calls_of, ini_runparse-print}

-- "[a]", "k = x\sy" and "l = ".
abbrev file : List Section
file =
    record {
      name = 97 ∷ [];
      properties =
          record { key = 107 ∷ []; value = 120 ∷ 32 ∷ 121 ∷ []; cb = 3 }
          ∷ record { key = 108 ∷ []; value = []; cb = 4 }
          ∷ [];
    }
    ∷ []

abbrev start : Ini
start = record {
  error = false;
  lineno = 0;
  group_name = [];
  group = none;
  actions = (97 ∷ [], (107 ∷ [], some 3) ∷ (108 ∷ [], some 4) ∷ []) ∷ [];
  calls = [];
}

registered : All (Registered start.actions) file
unfolding find
registered = (
  record {
    cbs = (107 ∷ [], some 3) ∷ (108 ∷ [], some 4) ∷ [];
    there = refl;
    named = refl;
    one_line = (refl, tt);
    keys = ((((refl, (refl, tt)), refl), refl), ((((refl, (refl, tt)), refl), refl), tt));
  },
  tt,
)

file_example :
    ((ini_runparse (λ _. false) (print file) start).calls ≡ start.calls ++ calls_of file)
    × ((ini_runparse (λ _. false) (print file) start).error ≡ start.error)
    × ((ini_runparse (λ _. false) (print file) start).actions ≡ start.actions)
file_example = ini_runparse-print (λ _. false) (λ _. refl) file start registered
