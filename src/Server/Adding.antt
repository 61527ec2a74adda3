-- ===== src/Server/Adding.antt =====
-- Adding tools to a FastMCP server (mcp/server.py), which keeps the tool of a name that is taken.
use mathlib.Core.Path.{subst}
use industrial_aiops_energy.Prelude.{
  append_nil, append_assoc, ◌≡◌, inl, inr, refl, sym, ap, ◌∙◌, arith, true, false, ◌||◌, List, [],
  ◌∷◌, ◌++◌, Text, text_eq, text_eq_iff, Bool-cases, Bool, All, All-append,
}
use industrial_aiops_energy.Server.{Tool, Package, is_name, names_of, add_tools}

pub is_name-append :
    (n : Text) (xs ys : List Tool)
    → is_name n (names_of (xs ++ ys)) ≡ (is_name n (names_of xs) || is_name n (names_of ys))
unfolding is_name
is_name-append n [] ys = refl
is_name-append n (x ∷ xs) ys = ground (arith, is_name-append n xs ys)

-- None of the names is among the others.
abbrev pub AllNew : List Tool → List Tool → Type 0
AllNew ts tools = All (λ t. is_name t.name (names_of tools) ≡ false) ts

-- No two tools have the same name.
abbrev pub DistinctNames : List Tool → Type 0
DistinctNames [] = Unit
DistinctNames (t ∷ ts) = All (λ u. text_eq t.name u.name ≡ false) ts × DistinctNames ts

or_false : (b : Bool) → (b || false) ≡ b
or_false true = refl
or_false false = refl

-- A name that is there adds nothing.
is_name-taken :
    (n m : Text) (names : List Text)
    → is_name m names ≡ true
    → is_name n names ≡ (is_name n names || text_eq m n)
is_name-taken n m names there = elim (Bool-cases (text_eq m n)) [
  | inl same ↦
      let moved : is_name m names ≡ is_name n names =
        ap (λ k. is_name k names) ((text_eq_iff m n).0 same) in
      ground arith
  | inr other ↦ ground arith
]

module _ (base : Package) where
  is_name-add_tool :
      (n : Text) (t : Tool) (tools : List Tool)
      → is_name n (names_of (base.add_tool t tools))
        ≡ (is_name n (names_of tools) || text_eq t.name n)
  unfolding is_name
  is_name-add_tool n t tools = elim (Bool-cases (is_name t.name (names_of tools))) [
    | inl taken ↦
        ap (λ r. is_name n (names_of r)) (base.keeps_taken t tools taken)
        ∙ is_name-taken n t.name (names_of tools) taken
    | inr new ↦
        ap (λ r. is_name n (names_of r)) (base.adds_new t tools new)
        ∙ (is_name-append n tools (t ∷ [])
            ∙ ap (λ b. is_name n (names_of tools) || b) (or_false (text_eq t.name n)))
  ]

  pub is_name-add_tools :
      (n : Text) (ts tools : List Tool)
      → is_name n (names_of (add_tools base ts tools))
        ≡ (is_name n (names_of tools) || is_name n (names_of ts))
  unfolding add_tools is_name
  is_name-add_tools n [] tools = ground arith
  is_name-add_tools n (t ∷ ts) tools =
      ground (arith, is_name-add_tools n ts (base.add_tool t tools), is_name-add_tool n t tools)

  pub add_tools-append :
      (xs ys tools : List Tool)
      → add_tools base (xs ++ ys) tools ≡ add_tools base ys (add_tools base xs tools)
  unfolding add_tools
  add_tools-append [] ys tools = refl
  add_tools-append (x ∷ xs) ys tools = add_tools-append xs ys (base.add_tool x tools)

  add_tool-AllNew :
      (t : Tool) (ts tools : List Tool)
      → All (λ u. text_eq t.name u.name ≡ false) ts
      → AllNew ts tools
      → AllNew ts (base.add_tool t tools)
  add_tool-AllNew t [] tools apart new = tt
  add_tool-AllNew t (u ∷ us) tools apart new =
      let a = apart.0 in
      let b = new.0 in
      (ground (arith, is_name-add_tool u.name t tools), add_tool-AllNew t us tools apart.1 new.1)

  -- Tools with new and distinct names are all added, in order.
  pub add_tools-AllNew :
      (ts tools : List Tool)
      → DistinctNames ts
      → AllNew ts tools
      → add_tools base ts tools ≡ tools ++ ts
  unfolding add_tools
  add_tools-AllNew [] tools apart new = sym (append_nil tools)
  add_tools-AllNew (t ∷ ts) tools apart new =
      add_tools-AllNew ts (base.add_tool t tools) apart.1 (add_tool-AllNew t ts tools apart.0 new.1)
      ∙ (ap (λ r. r ++ ts) (base.adds_new t tools new.0) ∙ append_assoc tools (t ∷ []) ts)

  module _ (P : Tool → Type 0) where
    add_tool-All :
        (t : Tool) (tools : List Tool) → P t → All P tools → All P (base.add_tool t tools)
    add_tool-All t tools p h = elim (Bool-cases (is_name t.name (names_of tools))) [
      | inl taken ↦ subst (All P) (sym (base.keeps_taken t tools taken)) h
      | inr new ↦
          subst (All P) (sym (base.adds_new t tools new)) (All-append P tools (t ∷ []) h (p, tt))
    ]

    pub add_tools-All :
        (ts tools : List Tool) → All P ts → All P tools → All P (add_tools base ts tools)
    unfolding add_tools
    add_tools-All [] tools ps h = h
    add_tools-All (t ∷ ts) tools ps h =
        add_tools-All ts (base.add_tool t tools) ps.1 (add_tool-All t tools ps.0 h)
