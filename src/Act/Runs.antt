-- ===== src/Act/Runs.antt =====
-- The effects outside the store of a sequence of runs.
use steadystate_ai.Prelude.{
  ◌≡◌, List, [], ◌++◌, append-nil, append_assoc, All, All-append, ap, sym, ◌∙◌,
}
use steadystate_ai.Act.Host.{Event, World, Exec, Reply, returned, raised, pure, proceed, ◌>>=◌}

-- What a run did outside the store, each effect of which `Q` holds.
unfoldable pub Runs : (Q : Event → Type 0) → World → World → Type 0
Runs Q w w' = (es : List Event) × All Q es × (w'.ran ≡ w.ran ++ es)

pub Runs-then : (Q : Event → Type 0) (u v w : World) → Runs Q u v → Runs Q v w → Runs Q u w
unfolding Runs
Runs-then Q u v w (es, h, e) (fs, k, f) =
    (es ++ fs, All-append Q es fs h k, f ∙ ap (λ xs. xs ++ fs) e ∙ append_assoc u.ran es fs)

pub Runs-none : (Q : Event → Type 0) (w : World) → Runs Q w w
unfolding Runs
Runs-none Q w = ([], tt, sym (append-nil w.ran))

proceed-Runs :
    {A B : Type 0} (Q : Event → Type 0) (r : Reply A) (f : A → Exec B) (w v : World)
    → Runs Q w v
    → ((a : A) → Runs Q v (f a v).1)
    → Runs Q w (proceed r f v).1
proceed-Runs Q (returned a) f w v h k = Runs-then Q w v (f a v).1 h (k a)
proceed-Runs Q raised f w v h k = h

-- The same, where the second run is known in the world that the first one leaves.
pub bind-Runs_at :
    {A B : Type 0} (Q : Event → Type 0) (m : Exec A) (f : A → Exec B) (w : World)
    → Runs Q w (m w).1
    → ((a : A) → Runs Q (m w).1 (f a (m w).1).1)
    → Runs Q w ((m >>= f) w).1
bind-Runs_at Q m f w h k = proceed-Runs Q (m w).0 f w (m w).1 h k

pub bind-Runs :
    {A B : Type 0} (Q : Event → Type 0) (m : Exec A) (f : A → Exec B) (w : World)
    → Runs Q w (m w).1
    → ((a : A) (v : World) → Runs Q v (f a v).1)
    → Runs Q w ((m >>= f) w).1
bind-Runs Q m f w h k = proceed-Runs Q (m w).0 f w (m w).1 h (λ a. k a (m w).1)

pub bind-pure-Runs :
    {A B : Type 0} (Q : Event → Type 0) (m : Exec A) (f : A → B) (w : World)
    → Runs Q w (m w).1
    → Runs Q w ((m >>= λ a. pure (f a)) w).1
bind-pure-Runs Q m f w h = bind-Runs Q m (λ a. pure (f a)) w h (λ a v. Runs-none Q v)
