-- ===== src/Rmw/Invariant.antt =====
-- The adapter context's invariant: the counters count the used slots, and the state says whether any
-- node or guard condition is left.
use open_rtdds.Prelude.{
  ℕ, ◌^◌, ◌≤◌, ◌<◌, ◌≡◌, refl, sym, ap, ◌∙◌, true, false, not, length, arith, Bool-cases, inl, inr,
}
use open_rtdds.Rmw.Context.{
  AdapterError, ContextState, AdapterLimits, AdapterContext, no_node, no_guard_condition, validate,
  is_open, is_holding, is_zero, is_finalizable, emptied, after_release, update_state_after_release,
}
use open_rtdds.Rmw.Slots.{count, count-le}
use open_rtdds.Rmw.Operations.{node_used, guard_used}

-- The tables have their sizes, and the counters count the used slots.
pub record Counted (n g : ℕ) (c : AdapterContext) : Type 0 where
  pub nodes_small : n < 2 ^ 16
  pub guards_small : g < 2 ^ 16
  pub node_slots : length c.nodes ≡ n
  pub guard_slots : length c.guard_conditions ≡ g
  pub nodes_counted : c.node_count ≡ count node_used no_node c.nodes
  pub guards_counted :
      c.guard_condition_count ≡ count guard_used no_guard_condition c.guard_conditions

-- It holds of a context with the same tables and counters.
pub recounted :
    {n g : ℕ} (c d : AdapterContext)
    → Counted n g c
    → d.nodes ≡ c.nodes
    → d.guard_conditions ≡ c.guard_conditions
    → d.node_count ≡ c.node_count
    → d.guard_condition_count ≡ c.guard_condition_count
    → Counted n g d
recounted c d k e f x y = record {
  nodes_small = k.nodes_small;
  guards_small = k.guards_small;
  node_slots = ap length e ∙ k.node_slots;
  guard_slots = ap length f ∙ k.guard_slots;
  nodes_counted = x ∙ k.nodes_counted ∙ sym (ap (count node_used no_node) e);
  guards_counted = y ∙ k.guards_counted ∙ sym (ap (count guard_used no_guard_condition) f);
}

-- The limits fit the tables.
abbrev pub Limited : ℕ → ℕ → AdapterContext → Type 0
Limited n g c = (c.limits.max_nodes ≤ n) × (c.limits.max_guard_conditions ≤ g)

pub record IsValid (n g : ℕ) (c : AdapterContext) : Type 0 where
  pub counted : Counted n g c
  pub limited : is_open c.state ≡ true → Limited n g c
  pub holding : emptied c ≡ not (is_holding c.state)

pub finalizable-not-holding : (s : ContextState) → is_finalizable s ≡ true → is_holding s ≡ false
finalizable-not-holding ContextState.finalizable e = refl
finalizable-not-holding ContextState.zeroed e = cc
finalizable-not-holding ContextState.initialized e = cc
finalizable-not-holding ContextState.active e = cc
finalizable-not-holding ContextState.shutting_down e = cc

pub zero-not-holding : (s : ContextState) → is_zero s ≡ true → is_holding s ≡ false
zero-not-holding ContextState.zeroed e = refl
zero-not-holding ContextState.finalizable e = cc
zero-not-holding ContextState.initialized e = cc
zero-not-holding ContextState.active e = cc
zero-not-holding ContextState.shutting_down e = cc

-- A released context: the state follows the counters.
settled :
    (s : ContextState)
    → is_holding s ≡ true
    → (is_holding (after_release s) ≡ false) × (is_open (after_release s) ≡ true → is_open s ≡ true)
settled ContextState.active e = (refl, λ q. refl)
settled ContextState.shutting_down e = (refl, λ q. cc)
settled ContextState.zeroed e = cc
settled ContextState.initialized e = cc
settled ContextState.finalizable e = cc

pub update-IsValid :
    {n g : ℕ} {c : AdapterContext}
    → Counted n g c
    → is_holding c.state ≡ true
    → (is_open c.state ≡ true → Limited n g c)
    → IsValid n g (update_state_after_release c)
update-IsValid {n} {g} {c} k h l = elim (Bool-cases (emptied c)) [
  | inl e ↦ rw e (record {
    counted = recounted c _ k refl refl refl refl;
    limited = λ o. l ((settled c.state h).1 o);
    holding = e ∙ sym (ap not (settled c.state h).0);
  })
  | inr e ↦ rw e (record { counted = k; limited = l; holding = e ∙ sym (ap not h) })
]

pub validate-Limited :
    {n g : ℕ} (limits : AdapterLimits)
    → validate limits n g ≡ AdapterError.none
    → (limits.max_nodes ≤ n) × (limits.max_guard_conditions ≤ g)
unfolding validate
validate-Limited limits e = (ground arith, ground arith)

module _ {n g : ℕ} {c : AdapterContext} (v : IsValid n g c) where
  pub nodes_le : c.node_count ≤ n
  nodes_le =
      omega
        (arith, v.counted.nodes_counted, v.counted.node_slots, count-le node_used no_node c.nodes)

  pub guards_le : c.guard_condition_count ≤ g
  guards_le = omega (
    arith,
    v.counted.guards_counted,
    v.counted.guard_slots,
    count-le guard_used no_guard_condition c.guard_conditions,
  )
