-- ===== src/Rmw/Preserved.antt =====
-- Every operation of AdapterContext but create_node keeps the invariant.
use open_rtdds.Prelude.{
  ℕ, ◌≡◌, refl, sym, ap, ◌∙◌, true, false, not, ltb, leb, get_or, set, length-set, arith,
  Bool-cases, inl, inr,
}
use open_rtdds.Rmw.Context.{
  AdapterError, AdapterConfig, AdapterContext, NodeSlot, GuardConditionSlot, Handle, no_node,
  no_guard_condition, identifier_matches, max_portable_domain_id, validate, is_open, is_holding,
  is_zero, is_finalizable, shutdown, finalize, emptied, next_generation,
}
use open_rtdds.Rmw.Slots.{count-take, count-give, count-keep, free_slot_lem}
use open_rtdds.Rmw.Operations.{
  node_used, guard_used, after_limits, initialize, destroy_node, create_guard_condition,
  destroy_guard_condition, trigger_guard_condition, valid_node_handle, valid_guard_condition_handle,
}
use open_rtdds.Rmw.Invariant.{
  IsValid, recounted, update-IsValid, validate-Limited, nodes_le, guards_le, zero-not-holding,
  finalizable-not-holding,
}

module _ {n g : ℕ} {c : AdapterContext} (v : IsValid n g c) where
  pub shutdown-IsValid : IsValid n g (shutdown c).1
  unfolding shutdown
  shutdown-IsValid = elim (Bool-cases (is_open c.state)) [
    | inr shut ↦ rw shut v
    | inl opened ↦ rw opened (record {
      counted = recounted c _ v.counted refl refl refl refl;
      limited = λ e. v.limited opened;
      holding = elim (Bool-cases (emptied c)) [
        | inl e ↦ ground (arith, e)
        | inr e ↦ ground (arith, e)
      ];
    })
  ]

  pub finalize-IsValid : IsValid n g (finalize c).1
  unfolding finalize
  finalize-IsValid = elim (Bool-cases (is_finalizable c.state)) [
    | inr other ↦ rw other v
    | inl done ↦ rw done (record {
      counted = recounted c _ v.counted refl refl refl refl;
      limited = λ e. cc;
      holding = v.holding ∙ ap not (finalizable-not-holding c.state done);
    })
  ]

  pub initialize-IsValid : (config : AdapterConfig) → IsValid n g (initialize n g c config).1
  unfolding initialize
  initialize-IsValid config = elim (Bool-cases (is_zero c.state)) [
    | inr other ↦ rw other v
    | inl zeroed ↦ elim (Bool-cases (identifier_matches config.identifier)) [
      | inr wrong ↦ rw (zeroed, wrong) v
      | inl right ↦ rw (zeroed, right) (go zeroed (validate config.limits n g) refl)
    ]
  ]
    where
      go :
          is_zero c.state ≡ true
          → (e : AdapterError) → validate config.limits n g ≡ e
          → IsValid n g (after_limits c config e).1
      go zeroed AdapterError.none e =
          elim (Bool-cases (ltb max_portable_domain_id config.domain_id)) [
            | inl far ↦ rw far v
            | inr near ↦ rw near (record {
              counted = recounted c _ v.counted refl refl refl refl;
              limited = λ q. validate-Limited config.limits e;
              holding = v.holding ∙ ap not (zero-not-holding c.state zeroed);
            })
          ]
      go zeroed _ e = v

  -- A slot as `destroy_node` leaves it.
  abbrev cleared_node : NodeSlot → NodeSlot
  cleared_node s = record s {
    used = false;
    name = set s.name 0 0;
    name_space = set s.name_space 0 0;
  }

  abbrev cleared_guard : GuardConditionSlot → GuardConditionSlot
  cleared_guard s = record s { used = false; trigger_generation = 0 }

  pub destroy_node-IsValid : (h : Handle) → IsValid n g (destroy_node n g c h).1
  unfolding destroy_node
  destroy_node-IsValid h = elim (Bool-cases (is_holding c.state)) [
    | inr other ↦ rw other v
    | inl held ↦ elim (Bool-cases (valid_node_handle n g c h)) [
      | inr stale ↦ rw (held, stale) v
      | inl good ↦
          rw (held, good)
            (update-IsValid
              (record {
                nodes_small = v.counted.nodes_small;
                guards_small = v.counted.guards_small;
                node_slots = length-set c.nodes h.slot _ ∙ v.counted.node_slots;
                guard_slots = v.counted.guard_slots;
                nodes_counted = omega (
                  arith,
                  nodes_le v,
                  v.counted.nodes_counted,
                  v.counted.nodes_small,
                  count-give node_used no_node c.nodes h.slot
                      (cleared_node (get_or c.nodes h.slot no_node))
                      (ground (arith, good, v.counted.node_slots)) (ground (arith, good)) refl,
                );
                guards_counted = v.counted.guards_counted;
              })
              held v.limited)
    ]
  ]

  pub destroy_guard_condition-IsValid :
      (h : Handle) → IsValid n g (destroy_guard_condition n g c h).1
  unfolding destroy_guard_condition
  destroy_guard_condition-IsValid h = elim (Bool-cases (is_holding c.state)) [
    | inr other ↦ rw other v
    | inl held ↦ elim (Bool-cases (valid_guard_condition_handle n g c h)) [
      | inr stale ↦ rw (held, stale) v
      | inl good ↦
          rw (held, good)
            (update-IsValid
              (record {
                nodes_small = v.counted.nodes_small;
                guards_small = v.counted.guards_small;
                node_slots = v.counted.node_slots;
                guard_slots = length-set c.guard_conditions h.slot _ ∙ v.counted.guard_slots;
                nodes_counted = v.counted.nodes_counted;
                guards_counted = omega (
                  arith,
                  guards_le v,
                  v.counted.guards_counted,
                  v.counted.guards_small,
                  count-give guard_used no_guard_condition c.guard_conditions h.slot
                      (cleared_guard (get_or c.guard_conditions h.slot no_guard_condition))
                      (ground (arith, good, v.counted.guard_slots)) (ground (arith, good)) refl,
                );
              })
              held v.limited)
    ]
  ]

  pub trigger_guard_condition-IsValid :
      (h : Handle) → IsValid n g (trigger_guard_condition n g c h).1
  unfolding trigger_guard_condition
  trigger_guard_condition-IsValid h = elim (Bool-cases (is_open c.state)) [
    | inr shut ↦ rw shut v
    | inl opened ↦ elim (Bool-cases (valid_guard_condition_handle n g c h)) [
      | inr stale ↦ rw (opened, stale) v
      | inl good ↦
          rw (opened, good)
            (record {
              counted = record {
                nodes_small = v.counted.nodes_small;
                guards_small = v.counted.guards_small;
                node_slots = v.counted.node_slots;
                guard_slots = length-set c.guard_conditions h.slot _ ∙ v.counted.guard_slots;
                nodes_counted = v.counted.nodes_counted;
                guards_counted =
                    v.counted.guards_counted
                    ∙ sym (
                        count-keep guard_used no_guard_condition c.guard_conditions h.slot _ refl
                          (ground (arith, good, v.counted.guard_slots)));
              };
              limited = v.limited;
              holding = v.holding;
            })
    ]
  ]

  pub create_guard_condition-IsValid : IsValid n g (create_guard_condition n g c).2
  unfolding create_guard_condition
  create_guard_condition-IsValid = elim (Bool-cases (is_open c.state)) [
    | inr shut ↦ rw shut v
    | inl opened ↦ elim (Bool-cases (leb c.limits.max_guard_conditions c.guard_condition_count)) [
      | inl full ↦ rw (opened, full) v
      | inr room ↦
          elim (free_slot_lem guard_used no_guard_condition g 0 c.guard_conditions
            (omega (arith, v.counted.guard_slots)) (λ j lt. absurd (omega arith))) [
              | inl (e, all) ↦ rw (opened, room, e) v
              | inr (i, e, lt, free) ↦
                  rw (opened, room, e)
                    (record {
                      counted = record {
                        nodes_small = v.counted.nodes_small;
                        guards_small = v.counted.guards_small;
                        node_slots = v.counted.node_slots;
                        guard_slots = length-set c.guard_conditions i _ ∙ v.counted.guard_slots;
                        nodes_counted = v.counted.nodes_counted;
                        guards_counted = omega (
                          arith,
                          guards_le v,
                          v.counted.guards_counted,
                          v.counted.guards_small,
                          count-take guard_used no_guard_condition c.guard_conditions i
                              (record {
                                generation =
                                    next_generation
                                      (get_or c.guard_conditions i no_guard_condition).generation;
                                trigger_generation = 0;
                                used = true;
                              })
                              lt free refl,
                        );
                      };
                      limited = λ q. v.limited opened;
                      holding = ground (arith, guards_le v, v.counted.guards_small);
                    })
            ]
    ]
  ]
