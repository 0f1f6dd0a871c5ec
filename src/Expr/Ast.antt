-- ===== src/Expr/Ast.antt =====
-- manager/src/decomposition/ast.h and ast.cpp: an expression that was read from a document.
use mathlib.Core.List.{foldl}
use distributed_task_dispatc.Prelude.{◌≡◌, refl, ◌∙◌, true, String, Result, ok, ◌>>=◌}
use distributed_task_dispatc.Expr.{Expr, postorder_traverse}
use distributed_task_dispatc.Expr.Traversal.{postorder, is_complete, traverse-postorder}
use distributed_task_dispatc.Expr.Json.{Json, from_json}
use distributed_task_dispatc.Expr.Json.RoundTrip.{one, to_json, Fits, from_json-to_json}

pub record Ast : Type 0 where
  pub root : Expr

-- `AST::FromJson`.
unfoldable pub ast_from_json : (String → Result Json) → String → Result Ast
ast_from_json parse input = do root ← from_json parse input; ok (record { root = root })

-- `AST::PostorderTraverse`.
unfoldable pub ast_postorder_traverse {ℓ} : {S : Type ℓ} → (S → Expr → S) → Ast → S → Result S
ast_postorder_traverse visit ast s = postorder_traverse visit ast.root s

-- A visitor of the expression that a document holds visits its nodes in postorder.
pub ast_from_json-traverse {ℓ} :
    {S : Type ℓ} (visit : S → Expr → S) (parse : String → Result Json) (input : String) (e : Expr)
    (s : S)
    → Fits e
    → parse input ≡ ok (one "ast" (to_json e))
    → is_complete e ≡ true
    → (do ast ← ast_from_json parse input; ast_postorder_traverse visit ast s)
      ≡ ok (foldl visit s (postorder e))
unfolding ast_from_json ast_postorder_traverse
ast_from_json-traverse visit parse input e s fits parsed complete =
    rw (from_json-to_json parse input e fits parsed)
      (traverse-postorder visit e s ∙ rw complete refl)
