-- ===== src/OrderStore/Layouts.antt =====
-- include/exsim/order_store.hpp: `SoaStore` and `HybridStore`, the other layouts of the records. As in
-- `AosStore`, the `next` links stand in the free list, which the layouts share.
use exchange_sim.Base.{
  ℕ, ◌<◌, ◌≡◌, ◌≢◌, refl, ap, ◌∙◌, sym, subst, Bool-cases, ◌==◌, inl, inr, List, length, get_or,
  set, replicate, arith, get_or-set_self, get_or-set_ne,
}
use exchange_sim.Domain.{Side}
use exchange_sim.OrderStore.Records.{Store, Order, no_order, order, put, init}

-- What the book reads of an order.
pub record Fields : Type 0 where
  pub id : ℕ
  pub qty : ℕ
  pub prev : ℕ
  pub level : ℕ
  pub owner : ℕ
  pub side : Side

pub record SoaStore : Type 0 where
  pub ids : List ℕ
  pub times : List ℕ
  pub qtys : List ℕ
  pub orig_qtys : List ℕ
  pub prevs : List ℕ
  pub levels : List ℕ
  pub owners : List ℕ
  pub sides : List Side

pub record Record : Type 0 where
  pub id : ℕ
  pub qty : ℕ
  pub prev : ℕ
  pub level : ℕ
  pub owner : ℕ
  pub side : Side
  pub flags : ℕ

pub record AuditRecord : Type 0 where
  pub ts : ℕ
  pub orig_qty : ℕ

pub record HybridStore : Type 0 where
  pub records : List Record
  pub audits : List AuditRecord

abbrev no_record : Record
no_record = record { id = 0; qty = 0; prev = 0; level = 0; owner = 0; side = Side.buy; flags = 0 }

abbrev no_audit : AuditRecord
no_audit = record { ts = 0; orig_qty = 0 }

unfoldable pub new_soa : ℕ → SoaStore
new_soa cap = record {
  ids = replicate cap 0;
  times = replicate cap 0;
  qtys = replicate cap 0;
  orig_qtys = replicate cap 0;
  prevs = replicate cap 0;
  levels = replicate cap 0;
  owners = replicate cap 0;
  sides = replicate cap Side.buy;
}

unfoldable pub new_hybrid : ℕ → HybridStore
new_hybrid cap = record { records = replicate cap no_record; audits = replicate cap no_audit }

-- The accessors.
unfoldable pub aos_fields : ℕ → Store → Fields
aos_fields s st =
    let o = order s st in
    record {
      id = o.id;
      qty = o.qty;
      prev = o.prev;
      level = o.level;
      owner = o.owner;
      side = o.side;
    }

unfoldable pub soa_fields : ℕ → SoaStore → Fields
soa_fields s st = record {
  id = get_or st.ids s 0;
  qty = get_or st.qtys s 0;
  prev = get_or st.prevs s 0;
  level = get_or st.levels s 0;
  owner = get_or st.owners s 0;
  side = get_or st.sides s Side.buy;
}

unfoldable pub hybrid_fields : ℕ → HybridStore → Fields
hybrid_fields s st =
    let r = get_or st.records s no_record in
    record {
      id = r.id;
      qty = r.qty;
      prev = r.prev;
      level = r.level;
      owner = r.owner;
      side = r.side;
    }

unfoldable pub init_soa : ℕ → ℕ → ℕ → ℕ → ℕ → Side → ℕ → SoaStore → SoaStore
init_soa s id qty level owner side ts st = record st {
  ids = set st.ids s id;
  times = set st.times s ts;
  qtys = set st.qtys s qty;
  orig_qtys = set st.orig_qtys s qty;
  levels = set st.levels s level;
  owners = set st.owners s owner;
  sides = set st.sides s side;
}

unfoldable pub init_hybrid : ℕ → ℕ → ℕ → ℕ → ℕ → Side → ℕ → HybridStore → HybridStore
init_hybrid s id qty level owner side ts st = record {
  records = set st.records s (record (get_or st.records s no_record) {
    id = id;
    qty = qty;
    level = level;
    owner = owner;
    side = side;
    flags = 0;
  });
  audits = set st.audits s (record { ts = ts; orig_qty = qty });
}

-- The fields after `init`: the back link is as it was.
abbrev started : ℕ → ℕ → ℕ → ℕ → Side → Fields → Fields
started id qty level owner side f = record f {
  id = id;
  qty = qty;
  level = level;
  owner = owner;
  side = side;
}

-- The lists that the accessors read are as long.
pub record HasSlots (cap : ℕ) (a : Store) (b : SoaStore) (c : HybridStore) : Type 0 where
  pub aos : length a.orders ≡ cap
  pub ids : length b.ids ≡ cap
  pub qtys : length b.qtys ≡ cap
  pub levels : length b.levels ≡ cap
  pub owners : length b.owners ≡ cap
  pub sides : length b.sides ≡ cap
  pub hybrid : length c.records ≡ cap

-- The three layouts read the same.
abbrev pub Agree : Store → SoaStore → HybridStore → Type 0
Agree a b c = (s : ℕ) → (soa_fields s b ≡ aos_fields s a) × (hybrid_fields s c ≡ aos_fields s a)

abbrev aos_of : Order → Fields
aos_of o = record {
  id = o.id;
  qty = o.qty;
  prev = o.prev;
  level = o.level;
  owner = o.owner;
  side = o.side;
}

abbrev hybrid_of : Record → Fields
hybrid_of r = record {
  id = r.id;
  qty = r.qty;
  prev = r.prev;
  level = r.level;
  owner = r.owner;
  side = r.side;
}

module _ (cap s id qty level owner : ℕ) (side : Side) (ts : ℕ) where
  aos_other :
      (j : ℕ) (a : Store)
      → s ≢ j
      → aos_fields j (init s id qty level owner side ts a) ≡ aos_fields j a
  unfolding aos_fields init put order
  aos_other j a n = ap aos_of (get_or-set_ne a.orders _ no_order n)

  soa_other :
      (j : ℕ) (b : SoaStore)
      → s ≢ j
      → soa_fields j (init_soa s id qty level owner side ts b) ≡ soa_fields j b
  unfolding soa_fields init_soa
  soa_other j b n =
      rw
        (
          get_or-set_ne b.ids id 0 n,
          get_or-set_ne b.qtys qty 0 n,
          get_or-set_ne b.levels level 0 n,
          get_or-set_ne b.owners owner 0 n,
          get_or-set_ne b.sides side Side.buy n,
        )
        refl

  hybrid_other :
      (j : ℕ) (c : HybridStore)
      → s ≢ j
      → hybrid_fields j (init_hybrid s id qty level owner side ts c) ≡ hybrid_fields j c
  unfolding hybrid_fields init_hybrid
  hybrid_other j c n = ap hybrid_of (get_or-set_ne c.records _ no_record n)

  aos_same :
      (a : Store)
      → s < length a.orders
      → aos_fields s (init s id qty level owner side ts a)
        ≡ started id qty level owner side (aos_fields s a)
  unfolding aos_fields init put order
  aos_same a h = ap aos_of (get_or-set_self a.orders s _ no_order h)

  hybrid_same :
      (c : HybridStore)
      → s < length c.records
      → hybrid_fields s (init_hybrid s id qty level owner side ts c)
        ≡ started id qty level owner side (hybrid_fields s c)
  unfolding hybrid_fields init_hybrid
  hybrid_same c h = ap hybrid_of (get_or-set_self c.records s _ no_record h)

  module _ (a : Store) (b : SoaStore) (c : HybridStore) (l : HasSlots cap a b c) (h : s < cap) where
    soa_same :
        soa_fields s (init_soa s id qty level owner side ts b)
        ≡ started id qty level owner side (soa_fields s b)
    unfolding soa_fields init_soa
    soa_same =
        rw
          (
            get_or-set_self b.ids s id 0 (omega (arith, l.ids, h)),
            get_or-set_self b.qtys s qty 0 (omega (arith, l.qtys, h)),
            get_or-set_self b.levels s level 0 (omega (arith, l.levels, h)),
            get_or-set_self b.owners s owner 0 (omega (arith, l.owners, h)),
            get_or-set_self b.sides s side Side.buy (omega (arith, l.sides, h)),
          )
          refl

    -- Where the three layouts of a store read the same, they do so after `init` of a slot of the store.
    pub init-Agree :
        Agree a b c
        → Agree
            (init s id qty level owner side ts a)
            (init_soa s id qty level owner side ts b)
            (init_hybrid s id qty level owner side ts c)
    init-Agree f j = elim (Bool-cases (s == j)) [
      | inl e ↦
          let d : s ≡ j = ground (arith, e) in
          let g : Fields → Fields = started id qty level owner side in
          let z = sym (aos_same a (omega (arith, l.aos, h))) in
          subst
            (λ (k : ℕ).
              (soa_fields k (init_soa s id qty level owner side ts b)
                ≡ aos_fields k (init s id qty level owner side ts a))
              × (hybrid_fields k (init_hybrid s id qty level owner side ts c)
                  ≡ aos_fields k (init s id qty level owner side ts a)))
            d
            (
              soa_same ∙ ap g (f s).0 ∙ z,
              hybrid_same c (omega (arith, l.hybrid, h)) ∙ ap g (f s).1 ∙ z,
            )
      | inr e ↦
          let n : s ≢ j = ground (arith, e) in
          (
            soa_other j b n ∙ (f j).0 ∙ sym (aos_other j a n),
            hybrid_other j c n ∙ (f j).1 ∙ sym (aos_other j a n),
          )
    ]
