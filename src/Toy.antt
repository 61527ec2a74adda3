-- ===== src/Toy.antt =====
-- A small runtime that computes, for the tests of all components.
use industrial_aiops_energy.Prelude.{
  ℕ, ◌+◌, ◌-◌, ◌*◌, Option, none, some, List, [], ◌++◌, ◌≡◌, refl, true, false, ◌∷◌, Text, pos,
  ◌==◌, if◌then◌else◌,
}
use industrial_aiops_energy.Server.{Tool, is_name, names_of}
use industrial_aiops_energy.Python.{DateTime, Runtime}

-- A toy calendar: digits are microseconds, and what follows a `+` makes the time aware, in UTC.
unfoldable pub digits : ℕ → Text → Option DateTime
digits n [] = some (record { wall = n; offset = none })
digits n (c ∷ s) =
    if c == b'+'
    then some (record { wall = n; offset = some (pos 0) })
    else if c == b'!'
    then none
    else digits (n * 10 + (c - 48)) s

abbrev pub runtime : Runtime
runtime = record {
  lower_other = λ c. c ∷ [];
  str_other = λ v. b'?' ∷ [];
  fromisoformat = digits 0;
  isoformat = λ n. n ∷ [];
  decimal = λ n. n ∷ [];
  seconds = λ n. [];
  fixed3 = λ n. [];
}

-- A FastMCP server that adds a tool unless its name is taken.
abbrev pub add_tool : Tool → List Tool → List Tool
add_tool t ts = if is_name t.name (names_of ts) then ts else ts ++ t ∷ []

pub adds_new :
    (t : Tool) (ts : List Tool)
    → is_name t.name (names_of ts) ≡ false
    → add_tool t ts ≡ ts ++ t ∷ []
adds_new t ts h = rw h refl

pub keeps_taken :
    (t : Tool) (ts : List Tool) → is_name t.name (names_of ts) ≡ true → add_tool t ts ≡ ts
keeps_taken t ts h = rw h refl
