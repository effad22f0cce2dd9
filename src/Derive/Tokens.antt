-- ===== src/Derive/Tokens.antt =====
-- What `StatusToken` and `Desired` give, key by key.
use herdr_tokens.Prelude.{
  ℕ, ◌+◌, String, ◌==◌, eq_iff, Bool, true, false, ◌&&◌, ◌||◌, not, Option, none, some, List, [],
  ◌∷◌, ◌≡◌, ◌↔◌, ◌⊎◌, refl, if◌then◌else◌, arith, any, count_if, Bool-cases, inl, inr, ltb, sym,
  subst, ◌∙◌,
}
use herdr_tokens.Dict.{lookup, insert, HasDistinctKeys}
use herdr_tokens.Dict.Laws.{eq_sym, lookup-insert, HasDistinctKeys-insert}
use herdr_tokens.Wire.{Workspace, Agent}
use herdr_tokens.Decimal.{itoa}
use herdr_tokens.Derive.{
  all_tokens, status_token, token_value, is_blocked, count_agents, put_count, Tokens, clear_all,
  desired,
}

-- The six names of which one is set.
abbrev pub IsStatusName : String → Type 0
IsStatusName k =
    (k ≡ "st_working")
    ⊎ (k ≡ "st_blocked")
    ⊎ (k ≡ "st_done")
    ⊎ (k ≡ "st_idle")
    ⊎ (k ≡ "st_unknown")
    ⊎ (k ≡ "st_none")

pub on_status_name {ℓ} :
    (P : String → Type ℓ) {k : String}
    → IsStatusName k
    → P "st_working"
    → P "st_blocked"
    → P "st_done"
    → P "st_idle"
    → P "st_unknown"
    → P "st_none"
    → P k
on_status_name P (inl e) a b c d f g = subst P (sym e) a
on_status_name P (inr (inl e)) a b c d f g = subst P (sym e) b
on_status_name P (inr (inr (inl e))) a b c d f g = subst P (sym e) c
on_status_name P (inr (inr (inr (inl e)))) a b c d f g = subst P (sym e) d
on_status_name P (inr (inr (inr (inr (inl e))))) a b c d f g = subst P (sym e) f
on_status_name P (inr (inr (inr (inr (inr e))))) a b c d f g = subst P (sym e) g

pub status_token-IsStatusName : (s : Option String) → IsStatusName (status_token s)
unfolding status_token
status_token-IsStatusName s = ground arith

-- `st_none` is for a null status alone: no status word, "unknown" included, gives it.
status_token-none_iff : (s : Option String) → (status_token s ≡ "st_none") ↔ (s ≡ none)
unfolding status_token
status_token-none_iff s = ground (
  arith,
  eq_iff "st_working" "st_none",
  eq_iff "st_blocked" "st_none",
  eq_iff "st_done" "st_none",
  eq_iff "st_idle" "st_none",
  eq_iff "st_unknown" "st_none",
)

abbrev has_status : String → Option String → Bool
has_status word none = false
has_status word (some s) = s == word

is_blocked-has_status : (a : Agent) → is_blocked a ≡ has_status "blocked" a.agent_status
is_blocked-has_status a = ground arith

-- The agents of a workspace, and the blocked ones among them.
abbrev pub agents_in : String → List Agent → ℕ
agents_in id = count_if (λ a. a.workspace_id == id)

abbrev pub blocked_in : String → List Agent → ℕ
blocked_in id = count_if (λ a. a.workspace_id == id && has_status "blocked" a.agent_status)

count_agents-eq :
    (id : String) (agents : List Agent) (b t : ℕ)
    → count_agents id agents (b, t) ≡ (b + blocked_in id agents, t + agents_in id agents)
unfolding count_agents
count_agents-eq id [] b t = ground arith
count_agents-eq id (a ∷ rest) b t = ground (
  arith,
  is_blocked-has_status a,
  count_agents-eq id rest b t,
  count_agents-eq id rest b (t + 1),
  count_agents-eq id rest (b + 1) (t + 1),
)

count_agents_lem :
    (id : String) (agents : List Agent)
    → count_agents id agents (0, 0) ≡ (blocked_in id agents, agents_in id agents)
count_agents_lem id agents = count_agents-eq id agents 0 0 ∙ ground arith

-- A key that the plugin owns.
unfoldable pub is_owned : String → Bool
is_owned k = any (λ j. j == k) all_tokens

pub is_owned_of_IsStatusName : (k : String) → IsStatusName k → is_owned k ≡ true
unfolding is_owned
is_owned_of_IsStatusName k h =
    on_status_name (λ k. is_owned k ≡ true) h refl refl refl refl refl refl

lookup-clear_all :
    (k : String) (ks : List String) (out : Tokens)
    → lookup k (clear_all ks out) ≡ (if any (λ j. j == k) ks then some none else lookup k out)
unfolding clear_all
lookup-clear_all k [] out = refl
lookup-clear_all k (j ∷ ks) out = ground (
  arith,
  lookup-clear_all k ks (insert j none out),
  lookup-insert {V = Option String} j k none out,
)

lookup-put_count :
    (k j : String) (n : ℕ) (out : Tokens)
    → lookup k (put_count j n out)
      ≡ (if j == k && ltb 0 n then some (some (itoa n)) else lookup k out)
unfolding put_count
lookup-put_count k j n out = ground (arith, lookup-insert j k (some (itoa n)) out)

-- The text of a count, absent if there is nothing to count.
abbrev pub count_text : ℕ → Option String
count_text n = if ltb 0 n then some (itoa n) else none

-- The key that shows a status: one for each known word, one for the words that are not known, and one
-- for a null status.
unfoldable pub is_shown_by : Option String → String → Bool
is_shown_by none k = k == "st_none"
is_shown_by (some s) k =
    (s == "working" && k == "st_working")
    || (s == "blocked" && k == "st_blocked")
    || (s == "done" && k == "st_done")
    || (s == "idle" && k == "st_idle")
    || (not (s == "working" || s == "blocked" || s == "done" || s == "idle") && k == "st_unknown")

-- What that key carries: the label, or the word of the status in the mode that asks for it.
abbrev pub text_shown : Workspace → String → String
text_shown ws mode =
    if mode == "status" then elim ws.agent_status [ none ↦ "none" | some s ↦ s ] else ws.label

-- What each owned key should carry: the text at the key that shows the status, the two counts where
-- there is something to count, and nothing else.
unfoldable pub wanted : Workspace → List Agent → String → String → Option String
unfolding is_shown_by
wanted ws agents mode k =
    if is_shown_by ws.agent_status k
    then some (text_shown ws mode)
    else if "att_blocked" == k
    then count_text (blocked_in ws.workspace_id agents)
    else if "n_agents" == k
    then count_text (agents_in ws.workspace_id agents)
    else none

-- A known word, by the key that shows it.
known_word :
    (word key s k : String)
    → (word == s) ≡ true
    → (key == k) ≡ is_shown_by (some word) k
    → (key == k) ≡ is_shown_by (some s) k
known_word word key s k e h =
    subst (λ s. (key == k) ≡ is_shown_by (some s) k) ((eq_iff word s).0 e) h

status_token-shows : (s : Option String) (k : String) → (status_token s == k) ≡ is_shown_by s k
unfolding status_token is_shown_by lookup
status_token-shows none k = eq_sym "st_none" k
status_token-shows (some s) k = elim (Bool-cases ("working" == s)) [
  | inl e ↦ rw e (known_word "working" "st_working" s k e (eq_sym "st_working" k ∙ ground arith))
  | inr n0 ↦ elim (Bool-cases ("blocked" == s)) [
    | inl e ↦
        rw (n0, e) (known_word "blocked" "st_blocked" s k e (eq_sym "st_blocked" k ∙ ground arith))
    | inr n1 ↦ elim (Bool-cases ("done" == s)) [
      | inl e ↦
          rw (n0, n1, e) (known_word "done" "st_done" s k e (eq_sym "st_done" k ∙ ground arith))
      | inr n2 ↦ elim (Bool-cases ("idle" == s)) [
        | inl e ↦
            rw (n0, n1, n2, e)
              (known_word "idle" "st_idle" s k e (eq_sym "st_idle" k ∙ ground arith))
        | inr n3 ↦ ground (
          arith,
          n0,
          n1,
          n2,
          n3,
          eq_sym "working" s,
          eq_sym "blocked" s,
          eq_sym "done" s,
          eq_sym "idle" s,
          eq_sym "st_unknown" k,
        )
      ]
    ]
  ]
]

token_value-shown : (ws : Workspace) (mode : String) → token_value ws mode ≡ text_shown ws mode
unfolding token_value
token_value-shown ws mode = refl

-- `wanted` by the names of the code.
pub wanted_lem :
    (ws : Workspace) (agents : List Agent) (mode k : String)
    → wanted ws agents mode k ≡ (
        if status_token ws.agent_status == k
        then some (token_value ws mode)
        else if "att_blocked" == k
        then count_text (blocked_in ws.workspace_id agents)
        else if "n_agents" == k
        then count_text (agents_in ws.workspace_id agents)
        else none)
unfolding wanted
wanted_lem ws agents mode k =
    rw (status_token-shows ws.agent_status k, token_value-shown ws mode) refl

abbrev pub IsCountFree : String → Type 0
IsCountFree k = ((k == "att_blocked") ≡ false) × ((k == "n_agents") ≡ false)

pub IsStatusName-IsCountFree : {k : String} → IsStatusName k → IsCountFree k
IsStatusName-IsCountFree h =
    on_status_name IsCountFree h (refl, refl) (refl, refl) (refl, refl) (refl, refl) (refl, refl)
      (refl, refl)

lookup-cleared :
    (k : String) → lookup k (clear_all all_tokens []) ≡ (if is_owned k then some none else none)
unfolding is_owned
lookup-cleared k = rw (lookup-clear_all k all_tokens []) (unfold lookup in refl)

-- The tests of `Desired` in the order in which its writes hide one another, and in the order of
-- `wanted`: is the key owned, the status token, the blocked count, the agent count?
regroup :
    (owned status blocked total some_blocked some_total : Bool) (v b t : String)
    → (status ≡ true → (owned ≡ true) × (blocked ≡ false) × (total ≡ false))
    → (blocked ≡ true → (owned ≡ true) × (total ≡ false))
    → (total ≡ true → owned ≡ true)
    → ◌≡◌ {A = Option (Option String)}
        (if total && some_total
          then some (some t)
          else if blocked && some_blocked
          then some (some b)
          else if status
          then some (some v)
          else if owned
          then some none
          else none)
        (if owned
          then some (
              if status
              then some v
              else if blocked
              then (if some_blocked then some b else none)
              else if total
              then (if some_total then some t else none)
              else none)
          else none)
regroup owned status blocked total some_blocked some_total v b t hs hb ht = ground arith

status_tests :
    (s : Option String) (k : String)
    → (status_token s == k) ≡ true
    → (is_owned k ≡ true) × (("att_blocked" == k) ≡ false) × (("n_agents" == k) ≡ false)
status_tests s k e =
    let same = (eq_iff (status_token s) k).0 e in
    let named = status_token-IsStatusName s in
    rw (← same) (
      is_owned_of_IsStatusName _ named,
      rw (eq_sym "att_blocked" (status_token s)) (IsStatusName-IsCountFree named).0,
      rw (eq_sym "n_agents" (status_token s)) (IsStatusName-IsCountFree named).1,
    )

blocked_tests :
    (k : String) → ("att_blocked" == k) ≡ true → (is_owned k ≡ true) × (("n_agents" == k) ≡ false)
unfolding is_owned
blocked_tests k e = rw (← (eq_iff "att_blocked" k).0 e) (refl, refl)

total_tests : (k : String) → ("n_agents" == k) ≡ true → is_owned k ≡ true
unfolding is_owned
total_tests k e = rw (← (eq_iff "n_agents" k).0 e) refl

-- `Desired` holds every key that the plugin owns and no other key: the key of the status (one for each
-- known word, `st_unknown` for every other word, `st_none` for a null status) with the label or, in the
-- mode that asks for it, the status word; `att_blocked` and `n_agents` with the number of the
-- workspace's blocked agents and of its agents if it is not 0; and every other owned key cleared.
pub lookup-desired :
    (ws : Workspace) (agents : List Agent) (mode k : String)
    → lookup k (desired ws agents mode)
      ≡ (if is_owned k then some (wanted ws agents mode k) else none)
unfolding desired
lookup-desired ws agents mode k =
    rw (wanted_lem ws agents mode k, count_agents_lem ws.workspace_id agents)
      (rw (lookup-put_count, lookup-put_count, lookup-insert, lookup-cleared)
        (regroup (is_owned k) (status_token ws.agent_status == k) ("att_blocked" == k)
          ("n_agents" == k) (ltb 0 (blocked_in ws.workspace_id agents))
          (ltb 0 (agents_in ws.workspace_id agents)) (token_value ws mode)
          (itoa (blocked_in ws.workspace_id agents)) (itoa (agents_in ws.workspace_id agents))
          (status_tests ws.agent_status k) (blocked_tests k) (total_tests k)))

HasDistinctKeys-clear_all :
    (ks : List String) (out : Tokens) → HasDistinctKeys out → HasDistinctKeys (clear_all ks out)
unfolding clear_all
HasDistinctKeys-clear_all [] out h = h
HasDistinctKeys-clear_all (k ∷ ks) out h =
    HasDistinctKeys-clear_all ks (insert k none out) (HasDistinctKeys-insert k none out h)

HasDistinctKeys-put_count :
    (k : String) (n : ℕ) (out : Tokens) → HasDistinctKeys out → HasDistinctKeys (put_count k n out)
unfolding put_count
HasDistinctKeys-put_count k n out h = elim (Bool-cases (ltb 0 n)) [
  | inl pos ↦ rw pos (HasDistinctKeys-insert k (some (itoa n)) out h)
  | inr zero ↦ rw zero h
]

pub HasDistinctKeys-desired :
    (ws : Workspace) (agents : List Agent) (mode : String)
    → HasDistinctKeys (desired ws agents mode)
unfolding desired
HasDistinctKeys-desired ws agents mode = HasDistinctKeys-put_count "n_agents" _ _ (
    HasDistinctKeys-put_count "att_blocked" _ _ (
      HasDistinctKeys-insert _ _ (clear_all all_tokens [])
        (HasDistinctKeys-clear_all all_tokens [] tt)))
