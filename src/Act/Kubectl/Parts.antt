-- ===== src/Act/Kubectl/Parts.antt =====
-- What an accepted command is made of.
use steadystate_ai.Prelude.{◌≡◌, refl, true, false, Option, none, some, List, arith, any}
use steadystate_ai.Prelude.Texts.{Text, split}
use steadystate_ai.Act.Kubectl.{
  WideWord, Shape, after_verb, scan_behind, scan_tokens, scan_start, safe_kubectl, is_shell_meta,
}

-- What an accepted command is: free of shell characters, the verb, and tokens that the loop accepts.
pub record Accepted (wide : WideWord) (shape : Shape) (command : Text) : Type 0 where
  pub plain : any is_shell_meta command ≡ false
  pub rest : List Text
  pub behind : after_verb shape.verb (split command) ≡ some rest
  pub scanned : scan_tokens wide shape (scan_start shape) false rest ≡ true

scan_behind-parts :
    (wide : WideWord) (shape : Shape) (command : Text) (o : Option (List Text))
    → any is_shell_meta command ≡ false
    → after_verb shape.verb (split command) ≡ o
    → scan_behind wide shape o ≡ true
    → Accepted wide shape command
unfolding scan_behind
scan_behind-parts wide shape command none p e h = absurd (cc)
scan_behind-parts wide shape command (some rest) p e h = record {
  plain = p;
  rest = rest;
  behind = e;
  scanned = h;
}

pub safe_kubectl-parts :
    (wide : WideWord) (shape : Shape) (command : Text)
    → safe_kubectl wide shape command ≡ true
    → Accepted wide shape command
unfolding safe_kubectl
safe_kubectl-parts wide shape command h =
    scan_behind-parts wide shape command (after_verb shape.verb (split command)) (ground (arith, h))
      refl (ground (arith, h))

pub safe_kubectl-build :
    (wide : WideWord) (shape : Shape) (command : Text)
    → Accepted wide shape command
    → safe_kubectl wide shape command ≡ true
unfolding safe_kubectl scan_behind
safe_kubectl-build wide shape command a = ground (arith, a.plain, a.behind, a.scanned)
