-- ===== src/App/Tests.antt =====
-- A call under an origin, with a toy context that counts the calls.
use industrial_aiops_energy.Prelude.{ℕ, suc, ◌≡◌, ◌⊎◌, refl, false, Option, none, some, [], codes}
use industrial_aiops_energy.Python.{Exception, no_fields, ok, raise, other, lookup_error, null}
use industrial_aiops_energy.App.{
  FastMcp, Origins, no_options, function, misused, decorator, tool, is_lookup, mcp_origin,
  call_tool,
}
use industrial_aiops_energy.App.Scoped.{OriginLaws, RanScoped, call_tool-RanScoped}

-- The origin that is set, and the origins that calls saw.
abbrev Context : Type 0
Context = ℕ × Option ℕ

abbrev upstream : FastMcp Context
upstream = record {
  tool = λ o f. record { name = []; fn = f; is_governed = false; annotations = o.annotations };
  hints_for = λ f. f;
  session = λ s. raise (other lookup_error []);
  call_tool = λ name arguments s. (ok null, (s.0, some s.0));
}

abbrev origins : Origins Context
origins = record {
  mcp_origin = λ session. elim session [ none ↦ 7 | some x ↦ suc x ];
  origin_scope = λ o body s. let (r, s') = body (o, s.1) in (r, (s.0, s'.1));
}

abbrev laws : OriginLaws origins (λ s. s.0)
laws = record { runs = λ o body s. ((o, s.1), refl, refl); restores = λ o body s. refl }

call_tool-RanScoped_example :
    ((e : Exception) × (upstream.session (0, none) ≡ raise e)
      × (is_lookup e ≡ false)
      × (call_tool upstream origins (codes "t") no_fields (0, none) ≡ (raise e, (0, none))))
    ⊎ RanScoped upstream origins (λ s. s.0) (codes "t") no_fields (0, none)
call_tool-RanScoped_example =
    call_tool-RanScoped upstream origins (λ s. s.0) (codes "t") no_fields (0, none) laws

-- The tool saw the origin for no session, and the origin is as before.
call_run : call_tool upstream origins (codes "t") no_fields (0, none) ≡ (ok null, (0, some 7))
unfolding call_tool mcp_origin
call_run = refl

-- @mcp.tool without parentheses is refused.
bare_decorator : tool upstream (record no_options { name = function 3 }) ≡ raise misused
unfolding tool
bare_decorator = refl

-- Annotations that are given win.
given_annotations :
    (decorator upstream (record no_options { annotations = some 9 }) 3).annotations ≡ some 9
unfolding decorator
given_annotations = refl
