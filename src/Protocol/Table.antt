-- ===== src/Protocol/Table.antt =====
-- The table of src/slam_protocol.c: what is found after a registration.
use slam.Base.{
  ℕ, ◌<◌, ◌≡◌, ◌≢◌, refl, sym, ◌∙◌, Bool, true, none, some, ℤ, pos, get_or, set, length, length-set,
  get_or-set_self, get_or-set_ne, arith,
}
use slam.Protocol.{Protocol, max_message_id, find_name, message_ref_name, reg_message}
use slam.Lua.Api.{Text}

module _ {B : Type 0} (register : B → ℤ → Text → Bool × B) where
  -- An id that is in range, not registered yet and that MessageBuilder takes is registered: it is
  -- found from then on, under the name of `MESSAGE_REF_NAME`, and any other id is found as before.
  pub reg_message_lem :
      (p : Protocol B Text) (i j : ℕ) (typename : Text) (builder : B)
      → length p.regtable ≡ max_message_id
      → i < max_message_id
      → j ≢ i
      → find_name p (pos i) ≡ none
      → register p.builder (pos i) typename ≡ (true, builder)
      → (p' : Protocol B Text) × (reg_message register p (pos i) typename
          ≡ (some (message_ref_name (pos i) typename), p'))
        × (length p'.regtable ≡ max_message_id)
        × (find_name p' (pos i) ≡ some (message_ref_name (pos i) typename))
        × (find_name p' (pos j) ≡ find_name p (pos j))
  unfolding find_name reg_message
  reg_message_lem p i j typename builder size h ne free taken =
      let same : get_or (set p.regtable i (some (message_ref_name (pos i) typename))) i none
          ≡ some (message_ref_name (pos i) typename) =
        get_or-set_self p.regtable i (some (message_ref_name (pos i) typename)) none
          (omega arith) in
      (
        record {
          regtable = set p.regtable i (some (message_ref_name (pos i) typename));
          builder = builder;
        },
        ground (arith, free, taken),
        length-set p.regtable i (some (message_ref_name (pos i) typename)) ∙ size,
        ground (arith, same),
        rw
            (get_or-set_ne p.regtable i j (some (message_ref_name (pos i) typename)) none
              (λ e. ne (sym e)))
            refl,
      )

  -- An id that is already registered is refused, whatever its type, and nothing changes.
  pub reg_message_duplicate :
      (p : Protocol B Text) (i : ℕ) (typename : Text) (name : Text)
      → find_name p (pos i) ≡ some name
      → reg_message register p (pos i) typename ≡ (none, p)
  unfolding find_name reg_message
  reg_message_duplicate p i typename name e = ground (arith, e)
