-- ===== src/Rmw/Nodes.antt =====
-- AdapterContext::create_node and its handles.
use open_rtdds.Prelude.{
  ℕ, suc, ◌^◌, ◌%◌, ◌<◌, ◌≡◌, ◌≢◌, ◌↔◌, refl, ap, ◌∙◌, Bool, true, false, ◌&&◌, ◌||◌, not, Option,
  leb, ◌==◌, get_or, set, length, length-set, get_or-set_self, add64, arith, BytePointer,
  Bool-cases, inl, inr,
}
use open_rtdds.Core.History.{is_null}
use open_rtdds.Serialization.Cdr.{byte_at}
use open_rtdds.Rmw.Context.{
  AdapterError, ContextState, AdapterContext, NodeSlot, Handle, no_node, is_open, bounded_length,
  next_generation, copy_bounded,
}
use open_rtdds.Rmw.Slots.{count-take, free_slot, free_slot_lem}
use open_rtdds.Rmw.Operations.{node_used, create_node, valid_node_handle, node_at}
use open_rtdds.Rmw.Invariant.{IsValid, nodes_le}

-- The conditions under which a node is created.
pub record Accepts (a b : ℕ) (c : AdapterContext) (name name_space : BytePointer) : Type 0 where
  pub opened : is_open c.state ≡ true
  pub named : is_null name ≡ false
  pub spaced : is_null name_space ≡ false
  pub name_there : byte_at name 0 ≢ 0
  pub space_there : byte_at name_space 0 ≢ 0
  pub name_bound : bounded_length name a < a
  pub space_bound : bounded_length name_space b < b
  pub room : c.node_count < c.limits.max_nodes

-- The tests of `create_node`, as one.
abbrev accepts : ℕ → ℕ → AdapterContext → BytePointer → BytePointer → Bool
accepts a b c name name_space =
    is_open c.state
    && not (is_null name || is_null name_space || byte_at name 0 == 0 || byte_at name_space 0 == 0)
    && not (leb a (bounded_length name a) || leb b (bounded_length name_space b))
    && not (leb c.limits.max_nodes c.node_count)

accepts-Accepts :
    (a b : ℕ) (c : AdapterContext) (name name_space : BytePointer)
    → (accepts a b c name name_space ≡ true) ↔ Accepts a b c name name_space
accepts-Accepts a b c name name_space = (
  λ e. record {
    opened = ground arith;
    named = ground arith;
    spaced = ground arith;
    name_there = ground arith;
    space_there = ground arith;
    name_bound = ground arith;
    space_bound = ground arith;
    room = ground arith;
  },
  λ r. ground (
    arith, r.opened, r.named, r.spaced, r.name_there, r.space_there, r.name_bound, r.space_bound,
    r.room,
  ),
)

module _ (n g a b : ℕ) (c : AdapterContext) (name name_space : BytePointer) where
  create_node_accepted :
      accepts a b c name name_space ≡ true
      → create_node n g a b c name name_space
        ≡ node_at n g a b c name name_space (free_slot node_used no_node n 0 c.nodes)
  unfolding create_node
  create_node_accepted e = ground arith

  create_node_refused :
      accepts a b c name name_space ≡ false
      → ((create_node n g a b c name name_space).0 ≢ AdapterError.none)
        × ((create_node n g a b c name name_space).1 ≡ Option.none)
        × ((create_node n g a b c name name_space).2 ≡ c)
  unfolding create_node
  create_node_refused e = (ground arith, ground arith, ground arith)

-- What a successful `create_node` gives: a handle that is valid in the new context and was not valid
-- before.
pub record Created (n g : ℕ) (c : AdapterContext)
    (out : AdapterError × Option Handle × AdapterContext) : Type 0 where
  pub handle : Handle
  pub output : out.1 ≡ Option.some handle
  pub good : valid_node_handle n g out.2 handle ≡ true
  pub fresh : valid_node_handle n g c handle ≡ false
  pub counted : out.2.node_count ≡ suc c.node_count
  pub active : out.2.state ≡ ContextState.active
  pub valid : IsValid n g out.2

node_at-Created :
    {n g : ℕ} (a b i : ℕ) {c : AdapterContext} (name name_space : BytePointer)
    → IsValid n g c
    → is_open c.state ≡ true
    → i < length c.nodes
    → (get_or c.nodes i no_node).used ≡ false
    → Created n g c (node_at n g a b c name name_space (Option.some i))
node_at-Created {n} {g} a b i {c} name name_space v opened lt free =
    let k = v.counted in
    let made : NodeSlot = record {
      name = copy_bounded name (bounded_length name a) (get_or c.nodes i no_node).name;
      name_space =
          copy_bounded name_space (bounded_length name_space b)
            (get_or c.nodes i no_node).name_space;
      generation = next_generation (get_or c.nodes i no_node).generation;
      used = true;
    } in
    let small : i % 2 ^ 16 ≡ i = omega (arith, k.node_slots, k.nodes_small) in
    let grown : add64 c.node_count 1 ≡ suc c.node_count =
      omega (arith, nodes_le v, k.nodes_small) in
    let here : get_or (set c.nodes i made) i no_node ≡ made =
      get_or-set_self c.nodes i made no_node lt in
    record {
      handle = record {
        slot = i % 2 ^ 16;
        slot_generation = made.generation;
        context_generation = c.context_generation;
      };
      output = refl;
      good =
          ground (
            arith,
            small,
            k.node_slots,
            ap (λ j. get_or (set c.nodes i made) j no_node) small,
            here,
          );
      fresh = ground (arith, small, ap (λ j. get_or c.nodes j no_node) small, free);
      counted = grown;
      active = refl;
      valid = record {
        counted = record {
          nodes_small = k.nodes_small;
          guards_small = k.guards_small;
          node_slots = length-set c.nodes i made ∙ k.node_slots;
          guard_slots = k.guard_slots;
          nodes_counted = omega (
            arith,
            grown,
            k.nodes_counted,
            count-take node_used no_node c.nodes i made lt free refl,
          );
          guards_counted = k.guards_counted;
        };
        limited = λ q. v.limited opened;
        holding = ground (arith, grown);
      };
    }

-- `create_node` succeeds exactly on an open context, two names that are there and within their
-- bounds, and a node count below the limit. It then gives a handle that was not valid before and is
-- valid now, counts the node and makes the context active; otherwise it changes nothing. The
-- context stays valid.
pub create_node_lem :
    {n g : ℕ} (a b : ℕ) {c : AdapterContext} (name name_space : BytePointer)
    → IsValid n g c
    → let out = create_node n g a b c name name_space in
      ((out.0 ≡ AdapterError.none) ↔ Accepts a b c name name_space)
      × (out.0 ≡ AdapterError.none → Created n g c out)
      × (out.0 ≢ AdapterError.none → (out.1 ≡ Option.none) × (out.2 ≡ c))
      × IsValid n g out.2
create_node_lem {n} {g} a b {c} name name_space v =
    elim (Bool-cases (accepts a b c name name_space)) [
      | inr bad ↦
          let r = create_node_refused n g a b c name name_space bad in
          (
            (
              λ e. absurd (r.0 e),
              λ q. ground (arith, bad, (accepts-Accepts a b c name name_space).1 q),
            ),
            λ e. absurd (r.0 e),
            λ e. (r.1, r.2),
            rw r.2 v,
          )
      | inl ok ↦
          let q = (accepts-Accepts a b c name name_space).0 ok in
          elim (free_slot_lem node_used no_node n 0 c.nodes (omega (arith, v.counted.node_slots))
            (λ j lt. absurd (omega arith))) [
              | inl (e, all) ↦ absurd (
                  omega (
                    arith,
                    all,
                    q.room,
                    v.counted.nodes_counted,
                    v.counted.node_slots,
                    (v.limited q.opened).0,
                  ))
              | inr (i, e, lt, free) ↦
                  let made = node_at-Created a b i name name_space v q.opened lt free in
                  rw (create_node_accepted n g a b c name name_space ok, e)
                    ((λ x. q, λ x. refl), λ x. made, λ x. absurd (x refl), made.valid)
            ]
    ]
