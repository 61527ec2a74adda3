-- ===== src/Server/Governed.antt =====
-- What mcp/server.py serves, and what it mounts.
use mathlib.Core.Path.{subst}
use industrial_aiops_energy.Prelude.{
  ◌≡◌, ◌⊎◌, inl, inr, refl, sym, arith, true, List, [], ◌∷◌, All, Text, if◌then◌else◌, Bool-cases,
}
use industrial_aiops_energy.Python.{Result, ok, raise}
use industrial_aiops_energy.Server.{
  Tool, Servers, Package, register, ungoverned, refusal, assert_all_tools_governed, main,
}

list_cases : (xs : List Text) → (xs ≡ []) ⊎ ((n : Text) × (ns : List Text) × (xs ≡ n ∷ ns))
list_cases [] = inl refl
list_cases (n ∷ ns) = inr (n, ns, refl)

abbrev pub IsGoverned : Tool → Type 0
IsGoverned t = t.is_governed ≡ true

module _ (base : Package) where
  ungoverned-IsGoverned : (tools : List Tool) → ungoverned tools ≡ [] → All IsGoverned tools
  unfolding ungoverned
  ungoverned-IsGoverned [] h = tt
  ungoverned-IsGoverned (t ∷ ts) h = elim (Bool-cases t.is_governed) [
    | inl governed ↦ (governed, ungoverned-IsGoverned ts (rw governed at h))
    | inr bare ↦ absurd (ground arith)
  ]

  IsGoverned-ungoverned : (tools : List Tool) → All IsGoverned tools → ungoverned tools ≡ []
  unfolding ungoverned
  IsGoverned-ungoverned [] h = refl
  IsGoverned-ungoverned (t ∷ ts) h =
      let later = IsGoverned-ungoverned ts h.1 in let governed = h.0 in ground arith

  -- What the server is about to serve: everything registered, narrowed by the no-egress gate where
  -- its switch is on.
  abbrev pub offered : Servers → List Tool
  offered s =
      if base.no_egress_active
      then base.apply_no_egress (register base s).tools
      else (register base s).tools

  -- What starting says of the tools on offer: they are served, and each is governed; or the server
  -- refuses to start, and one of them is not.
  abbrev pub Decided : List Tool → Result (List Tool) → Type 0
  Decided tools (ok served) = (served ≡ tools) × All IsGoverned tools
  Decided tools (raise e) = ¬ All IsGoverned tools

  assert_all_tools_governed-Decided :
      (tools : List Tool) → Decided tools (assert_all_tools_governed tools)
  unfolding assert_all_tools_governed
  assert_all_tools_governed-Decided tools = elim (list_cases (ungoverned tools)) [
    | inl clean ↦
        let served : assert_all_tools_governed tools ≡ ok tools = ground arith in
        subst (Decided tools) (sym served) (refl, ungoverned-IsGoverned tools clean)
    | inr (n, ns, dirty) ↦
        let refused : assert_all_tools_governed tools ≡ raise (refusal (n ∷ ns)) = ground arith in
        subst (Decided tools) (sym refused)
          (λ all. let clean = IsGoverned-ungoverned tools all in absurd (ground arith))
  ]

  -- The server serves either exactly the tools on offer, which are all that were registered,
  -- narrowed by the no-egress gate where its switch is on, and then each of them is governed; or
  -- nothing, and then one of them is not.
  pub main-Decided : (s : Servers) → Decided (offered s) (main base s)
  unfolding main
  main-Decided s = assert_all_tools_governed-Decided (offered s)
