-- ===== src/Rmw/Runs.antt =====
-- The life of an adapter context: any sequence of its operations.
use open_rtdds.Prelude.{
  ℕ, sub64, zero, suc, ◌^◌, ◌<◌, ◌≡◌, ◌≢◌, ◌↔◌, refl, sym, ap, ◌∙◌, true, false, not, List, [], ◌∷◌,
  arith, BytePointer, Bool-cases, inl, inr, length, length-replicate, replicate, get_or, set,
  get_or-set_self,
}
use open_rtdds.Rmw.Context.{
  AdapterError, ContextState, AdapterConfig, AdapterContext, NodeSlot, Handle, no_node, empty_node,
  no_guard_condition, default_limits, shutdown, finalize, is_finalizable, is_holding, is_open,
  emptied, update_state_after_release,
}
use open_rtdds.Rmw.Slots.{count, count-give}
use open_rtdds.Rmw.Operations.{
  initialize, create_node, destroy_node, create_guard_condition, destroy_guard_condition,
  trigger_guard_condition, valid_node_handle, node_used, guard_used,
}
use open_rtdds.Rmw.Invariant.{finalizable-not-holding, IsValid, nodes_le}
use open_rtdds.Rmw.Preserved.{
  shutdown-IsValid, finalize-IsValid, initialize-IsValid, destroy_node-IsValid,
  destroy_guard_condition-IsValid, trigger_guard_condition-IsValid, create_guard_condition-IsValid,
}
use open_rtdds.Rmw.Nodes.{create_node_lem}

-- A context as it is built, for `n` nodes, `g` guard conditions, and names of so many bytes.
abbrev pub new_context : ℕ → ℕ → ℕ → ℕ → AdapterContext
new_context n g name_bytes namespace_bytes = record {
  nodes = replicate n (empty_node name_bytes namespace_bytes);
  guard_conditions = replicate g no_guard_condition;
  limits = default_limits;
  wake_generation = 0;
  node_count = 0;
  guard_condition_count = 0;
  context_generation = 0;
  domain_id = 0;
  state = ContextState.zeroed;
}

none_used : (n a b : ℕ) → count node_used no_node (replicate n (empty_node a b)) ≡ 0
none_used zero a b = refl
none_used (suc n) a b = none_used n a b

none_used_guard : (n : ℕ) → count guard_used no_guard_condition (replicate n no_guard_condition) ≡ 0
none_used_guard zero = refl
none_used_guard (suc n) = none_used_guard n

pub new_context-IsValid :
    (n g a b : ℕ) → n < 2 ^ 16 → g < 2 ^ 16 → IsValid n g (new_context n g a b)
new_context-IsValid n g a b h k = record {
  counted = record {
    nodes_small = h;
    guards_small = k;
    node_slots = length-replicate n (empty_node a b);
    guard_slots = length-replicate g no_guard_condition;
    nodes_counted = sym (none_used n a b);
    guards_counted = sym (none_used_guard g);
  };
  limited = λ e. cc;
  holding = refl;
}

pub data Call : Type 0 where
  initialize_call : AdapterConfig → Call
  shutdown_call finalize_call create_guard_condition_call : Call
  create_node_call : BytePointer → BytePointer → Call
  destroy_node_call destroy_guard_condition_call trigger_call : Handle → Call

module _ (n g a b : ℕ) where
  abbrev pub perform : AdapterContext → Call → AdapterContext
  perform c (initialize_call config) = (initialize n g c config).1
  perform c shutdown_call = (shutdown c).1
  perform c finalize_call = (finalize c).1
  perform c create_guard_condition_call = (create_guard_condition n g c).2
  perform c (create_node_call name name_space) = (create_node n g a b c name name_space).2
  perform c (destroy_node_call h) = (destroy_node n g c h).1
  perform c (destroy_guard_condition_call h) = (destroy_guard_condition n g c h).1
  perform c (trigger_call h) = (trigger_guard_condition n g c h).1

  abbrev pub run : AdapterContext → List Call → AdapterContext
  run c [] = c
  run c (call ∷ calls) = run (perform c call) calls

perform-IsValid :
    {n g : ℕ} (a b : ℕ) {c : AdapterContext} (call : Call)
    → IsValid n g c
    → IsValid n g (perform n g a b c call)
perform-IsValid a b (initialize_call config) v = initialize-IsValid v config
perform-IsValid a b shutdown_call v = shutdown-IsValid v
perform-IsValid a b finalize_call v = finalize-IsValid v
perform-IsValid a b create_guard_condition_call v = create_guard_condition-IsValid v
perform-IsValid a b (create_node_call name name_space) v = (create_node_lem a b name name_space v).3
perform-IsValid a b (destroy_node_call h) v = destroy_node-IsValid v h
perform-IsValid a b (destroy_guard_condition_call h) v = destroy_guard_condition-IsValid v h
perform-IsValid a b (trigger_call h) v = trigger_guard_condition-IsValid v h

-- Whatever is called on a new context, and in whatever order, the counters count the used slots, the
-- limits of an open context fit its tables, and the context is active or shutting down exactly while
-- a node or a guard condition is left.
pub run-IsValid :
    (n g a b : ℕ) (calls : List Call)
    → n < 2 ^ 16
    → g < 2 ^ 16
    → IsValid n g (run n g a b (new_context n g a b) calls)
run-IsValid n g a b calls h k = go calls (new_context-IsValid n g a b h k)
  where
    go :
        (calls : List Call) {c : AdapterContext} → IsValid n g c → IsValid n g (run n g a b c calls)
    go [] v = v
    go (call ∷ calls) v = go calls (perform-IsValid a b call v)

-- A valid context is finalized only if it holds no node and no guard condition; and an open context
-- that holds none can be shut down and then finalized.
pub finalize_lem :
    {n g : ℕ} {c : AdapterContext}
    → IsValid n g c
    → ((finalize c).0 ≡ AdapterError.none → (c.node_count ≡ 0) × (c.guard_condition_count ≡ 0))
      × (is_open c.state ≡ true
          → c.node_count ≡ 0
          → c.guard_condition_count ≡ 0
          → (finalize (shutdown c).1).0 ≡ AdapterError.none)
unfolding finalize shutdown
finalize_lem {n} {g} {c} v = (
  λ e.
      let done : is_finalizable c.state ≡ true = ground arith in
      let empty : emptied c ≡ true = v.holding ∙ ap not (finalizable-not-holding c.state done) in
      (ground (arith, empty), ground (arith, empty)),
  λ o x y. ground (arith, o, x, y),
)

update_keeps :
    (d : AdapterContext)
    → ((update_state_after_release d).nodes ≡ d.nodes)
      × ((update_state_after_release d).node_count ≡ d.node_count)
      × ((update_state_after_release d).context_generation ≡ d.context_generation)
update_keeps d = elim (Bool-cases (emptied d)) [
  | inl e ↦ rw e (refl, refl, refl)
  | inr e ↦ rw e (refl, refl, refl)
]

abbrev cleared_slot : AdapterContext → Handle → NodeSlot
cleared_slot c h = record (get_or c.nodes h.slot no_node) {
  used = false;
  name = set (get_or c.nodes h.slot no_node).name 0 0;
  name_space = set (get_or c.nodes h.slot no_node).name_space 0 0;
}

abbrev released : AdapterContext → Handle → AdapterContext
released c h = record c {
  nodes = set c.nodes h.slot (cleared_slot c h);
  node_count = sub64 c.node_count 1;
}

-- `destroy_node` succeeds exactly with a valid handle on a context that is active or shutting down.
-- The handle is not valid in the new context, and the count is one less; otherwise nothing changes.
pub destroy_node_lem :
    {n g : ℕ} {c : AdapterContext} (h : Handle)
    → IsValid n g c
    → let (e, d) = destroy_node n g c h in
      ((e ≡ AdapterError.none) ↔ ((is_holding c.state ≡ true) × (valid_node_handle n g c h ≡ true)))
      × (e ≡ AdapterError.none
          → (valid_node_handle n g d h ≡ false) × (suc d.node_count ≡ c.node_count))
      × (e ≢ AdapterError.none → d ≡ c)
unfolding destroy_node
destroy_node_lem {n} {g} {c} h v = elim (Bool-cases (is_holding c.state)) [
  | inr other ↦ rw other ((λ e. cc, λ q. cc), λ e. cc, λ e. refl)
  | inl held ↦ elim (Bool-cases (valid_node_handle n g c h)) [
    | inr stale ↦ rw (held, stale) ((λ e. cc, λ q. cc), λ e. cc, λ e. refl)
    | inl good ↦
        let lt : h.slot < length c.nodes = ground (arith, good, v.counted.node_slots) in
        let u = update_keeps (released c h) in
        let less =
          count-give node_used no_node c.nodes h.slot (cleared_slot c h) lt (ground (arith, good))
            refl in
        rw (held, good)
          (
            (λ e. (refl, refl), λ q. refl),
            λ e. (
              ground (
                arith,
                u,
                ap (λ xs. (get_or xs h.slot no_node).used) u.0,
                get_or-set_self c.nodes h.slot (cleared_slot c h) no_node lt,
              ),
              omega (arith, u.1, less, v.counted.nodes_counted, nodes_le v, v.counted.nodes_small),
            ),
            λ e. absurd (e refl),
          )
  ]
]
