-- ===== src/Migration/Ids/Order.antt =====
-- compareID of migration/migration.go is a strict total order on identities.
use Prim.Native.Nat.{Ordering}
use fit_go.Base.{◌≡◌, arith, compare_text-eq, compare_text_flip, compare_text_trans}
use fit_go.Migration.Ids.{MigrationId, compare_id}

-- Two identities that compare as equal are equal.
pub compare_id-eq : (a b : MigrationId) → compare_id a b ≡ Ordering.eq → a ≡ b
unfolding compare_id
compare_id-eq a b h = ground (arith, compare_text-eq a.name b.name)

-- Where the first comes after the second, the second comes before the first.
pub compare_id_flip :
    (a b : MigrationId) → compare_id a b ≡ Ordering.gt → compare_id b a ≡ Ordering.lt
unfolding compare_id
compare_id_flip a b h = ground (arith, compare_text_flip a.name b.name)

-- Where one identity comes before a second, and that before a third, the first comes before the third.
pub compare_id_trans :
    (a b c : MigrationId)
    → compare_id a b ≡ Ordering.lt
    → compare_id b c ≡ Ordering.lt
    → compare_id a c ≡ Ordering.lt
unfolding compare_id
compare_id_trans a b c h k = ground (arith, compare_text_trans a.name b.name c.name)
