-- ===== src/App/Scoped.antt =====
-- Every call of a tool (mcp/_app.py) runs under the origin of its session.
use industrial_aiops_energy.Prelude.{
  ℕ, ◌≡◌, ◌⊎◌, inl, inr, refl, ap, ◌∙◌, arith, true, false, Bool-cases, Option, none, some, Text,
}
use industrial_aiops_energy.Python.{Value, Fields, Result, ok, raise, Exception}
use industrial_aiops_energy.App.{is_lookup, FastMcp, Origins, mcp_origin, call_tool}

-- Documented of origin_scope: the body runs with the origin set, its result is kept, and afterwards
-- the origin is as before.
pub record OriginLaws {S : Type 0} (origins : Origins S) (origin : S → ℕ) : Type 0 where
  pub runs :
      (o : ℕ) (body : S → Result Value × S) (s : S)
      → (inner : S) × (origin inner ≡ o) × ((origins.origin_scope o body s).0 ≡ (body inner).0)
  pub restores :
      (o : ℕ) (body : S → Result Value × S) (s : S)
      → origin (origins.origin_scope o body s).1 ≡ origin s

result_cases : (r : Result ℕ) → ((x : ℕ) × (r ≡ ok x)) ⊎ ((e : Exception) × (r ≡ raise e))
result_cases (ok x) = inl (x, refl)
result_cases (raise e) = inr (e, refl)

module _ {S : Type 0} (upstream : FastMcp S) (origins : Origins S) (origin : S → ℕ) (name : Text)
    (arguments : Fields) (s : S) where
  -- The session of the request, and none outside of a request.
  abbrev pub Current : Option ℕ → Type 0
  Current (some x) = upstream.session s ≡ ok x
  Current none = (e : Exception) × (upstream.session s ≡ raise e) × (is_lookup e ≡ true)

  -- What the call made of the tool's run, under the origin of the current session.
  abbrev pub RanScoped : Type 0
  RanScoped =
      (session : Option ℕ) × (inner : S) × Current session
      × (origin inner ≡ origins.mcp_origin session)
      × ((call_tool upstream origins name arguments s).0
          ≡ (upstream.call_tool name arguments inner).0)
      × (origin (call_tool upstream origins name arguments s).1 ≡ origin s)

  scoped :
      (session : Option ℕ)
      → OriginLaws origins origin
      → Current session
      → mcp_origin upstream origins s ≡ ok (origins.mcp_origin session)
      → RanScoped
  unfolding call_tool
  scoped session laws current e =
      let o = origins.mcp_origin session in
      let body = upstream.call_tool name arguments in
      let (inner, there, result) = laws.runs o body s in
      let same : call_tool upstream origins name arguments s ≡ origins.origin_scope o body s =
        ground arith in
      (
        session,
        inner,
        current,
        there,
        ground arith,
        ap (λ out. origin out.1) same ∙ laws.restores o body s,
      )

  -- Every call of a tool runs under the origin of the session of the request, or under the origin for
  -- no session where there is no request; its result, a value or an exception, is that of FastMCP's
  -- own call; and afterwards the origin is as before. Only where asking for the session raises
  -- something that is no LookupError is nothing called, and that is raised.
  pub call_tool-RanScoped :
      OriginLaws origins origin
      → ((e : Exception) × (upstream.session s ≡ raise e)
          × (is_lookup e ≡ false)
          × (call_tool upstream origins name arguments s ≡ (raise e, s)))
        ⊎ RanScoped
  unfolding mcp_origin call_tool
  call_tool-RanScoped laws = elim (result_cases (upstream.session s)) [
    | inl (x, known) ↦ inr (scoped (some x) laws known (ground arith))
    | inr (e, failed) ↦ elim (Bool-cases (is_lookup e)) [
      | inl lookup ↦ inr (scoped none laws (e, failed, lookup) (ground arith))
      | inr severe ↦ inl (e, failed, severe, ground arith)
    ]
  ]
