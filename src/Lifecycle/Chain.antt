-- ===== src/Lifecycle/Chain.antt =====
-- The intents of a transition are to be delivered one after the other.
use jira_simulator.Base.{◌≡◌, refl, Option, some, List, [], ◌∷◌}
use jira_simulator.State.Names.{Runtime}
use jira_simulator.Lifecycle.{Services}
use jira_simulator.Lifecycle.Intents.{
  TransitionContext, ProjectionIntentDraft, Operation, Key, dependency_of, intents_after,
}

-- Each intent depends on the one before it and on no other; `last` comes before the first.
abbrev pub IsChain : Option Key → List ProjectionIntentDraft → Type 0
IsChain last [] = Unit
IsChain last (i ∷ rest) =
    (i.payload.depends_on ≡ dependency_of last) × IsChain (some i.semantic_key) rest

module _ {R : Runtime} (services : Services R) where
  pub intents_after-IsChain :
      (context : TransitionContext R) (operations : List Operation) (last : Option Key)
      → IsChain last (intents_after services context operations last)
  intents_after-IsChain context [] last = tt
  intents_after-IsChain context (operation ∷ rest) last =
      (refl, intents_after-IsChain context rest (some _))
