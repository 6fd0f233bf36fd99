-- ===== src/Inbound/Grammar/Names.antt =====
-- The names of the verbs (src/steadystate/inbound/base.py).
use steadystate_ai.Prelude.{◌≡◌, refl, some, false}
use steadystate_ai.Prelude.Words.{IsWord, unbroken}
use steadystate_ai.Prelude.Texts.{is_space}
use steadystate_ai.Inbound.Grammar.{Verb, start_here, verb_text, verb_named, is_alias}

-- Every verb is found under its name.
pub verb_named-verb_text : (v : Verb) → verb_named (verb_text v) ≡ some v
unfolding verb_named
verb_named-verb_text start_here = refl
verb_named-verb_text _ = refl

pub verb_text-not_alias : (v : Verb) → is_alias (verb_text v) ≡ false
verb_text-not_alias start_here = refl
verb_text-not_alias _ = refl

pub verb_text-IsWord : (v : Verb) → IsWord (verb_text v)
unfolding unbroken is_space
verb_text-IsWord start_here = refl
verb_text-IsWord _ = refl
