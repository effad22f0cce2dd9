-- ===== src/Cli/Preview.antt =====
-- What `preview` shows.
use herdr_tokens.Prelude.{
  String, ◌==◌, Option, none, some, List, [], ◌∷◌, ◌≡◌, refl, ◌∙◌, arith, if◌then◌else◌,
}
use herdr_tokens.Dict.{Dict, lookup, insert}
use herdr_tokens.Dict.Laws.{lookup-insert}
use herdr_tokens.Wire.{Workspace, Agent}
use herdr_tokens.Derive.{Tokens, desired}
use herdr_tokens.Cli.{preview_tokens}

abbrev or_else {ℓ} : {A : Type ℓ} → Option A → Option A → Option A
or_else none old = old
or_else (some x) old = some x

or_else-none {ℓ} : {A : Type ℓ} (o : Option A) → or_else o none ≡ o
or_else-none none = refl
or_else-none (some x) = refl

-- The last workspace with a label.
unfoldable pub last_labelled : String → List Workspace → Option Workspace
last_labelled k [] = none
last_labelled k (ws ∷ rest) =
    or_else (last_labelled k rest) (if ws.label == k then some ws else none)

abbrev pub tokens_of : List Agent → String → Option Workspace → Option Tokens
tokens_of agents mode none = none
tokens_of agents mode (some ws) = some (desired ws agents mode)

preview_tokens-eq :
    (agents : List Agent) (mode k : String) (wss : List Workspace) (out : Dict Tokens)
    → lookup k (preview_tokens agents mode wss out)
      ≡ or_else (tokens_of agents mode (last_labelled k wss)) (lookup k out)
unfolding preview_tokens last_labelled
preview_tokens-eq agents mode k [] out = refl
preview_tokens-eq agents mode k (ws ∷ rest) out = ground (
  arith,
  preview_tokens-eq agents mode k rest (insert ws.label (desired ws agents mode) out),
  lookup-insert ws.label k (desired ws agents mode) out,
)

-- Under each label, `preview` shows what `Desired` gives for the last workspace of the snapshot with
-- that label, and nothing under any other: workspaces that share a label hide one another.
pub lookup-preview_tokens :
    (agents : List Agent) (mode k : String) (wss : List Workspace)
    → lookup k (preview_tokens agents mode wss []) ≡ tokens_of agents mode (last_labelled k wss)
lookup-preview_tokens agents mode k wss =
    preview_tokens-eq agents mode k wss []
    ∙ (unfold lookup in or_else-none (tokens_of agents mode (last_labelled k wss)))
