-- ===== src/Millennium/Fields.antt =====
-- How the three versions of mapOrderFields in src/millennium/gwcMillennium.cpp compare.
use fosdk.Common.{ℕ, ◌≡◌, ◌≢◌, refl, true, Option, arith, ◌≤◌}
use fosdk.Gwc.Order.{Order, OrderType, Tif, order_type_code}
use fosdk.Gwc.Env.{Env}
use fosdk.Millennium.{SeqNum}
use fosdk.Millennium.OrderFields.{
  type_number, tif_number, oslo_type_number, oslo_tif_number, lse_type_number, lse_tif_number,
  with_tif, map_with, map_order_fields, oslo_map_order_fields, lse_map_order_fields,
}

lse_type_number_lem : (t : OrderType) → lse_type_number t ≡ type_number t
unfolding lse_type_number type_number
lse_type_number_lem OrderType.market = refl
lse_type_number_lem _ = refl

lse_tif_number_lem : (t : Tif) → lse_tif_number t ≡ tif_number t
unfolding lse_tif_number tif_number
lse_tif_number_lem Tif.day = refl
lse_tif_number_lem _ = refl

-- The times in force that Oslo's version treats like the template's.
abbrev SameTif : Tif → Type 0
SameTif t = (t ≢ Tif.gfa) × (t ≢ Tif.cpx) × (t ≢ Tif.gfx)

oslo_tif_number_lem : (t : Tif) → SameTif t → oslo_tif_number t ≡ tif_number t
unfolding oslo_tif_number tif_number
oslo_tif_number_lem Tif.gfa h = absurd (h.0 refl)
oslo_tif_number_lem Tif.cpx h = absurd (h.1 refl)
oslo_tif_number_lem Tif.gfx h = absurd (h.2 refl)
oslo_tif_number_lem _ h = refl

oslo_type_number_lem : (t : OrderType) → order_type_code t ≤ 1 → oslo_type_number t ≡ type_number t
unfolding oslo_type_number type_number order_type_code
oslo_type_number_lem OrderType.stop h = absurd (omega (arith, h))
oslo_type_number_lem OrderType.stop_limit h = absurd (omega (arith, h))
oslo_type_number_lem _ h = refl

module _ (E : Env SeqNum) where
  with_tif_same :
      (tifs tifs' : Tif → Option ℕ) (r : Order E.Msg E.Double) (m : E.Msg)
      → (r.tif_set ≡ true → tifs r.tif ≡ tifs' r.tif)
      → with_tif E tifs r m ≡ with_tif E tifs' r m
  unfolding with_tif
  with_tif_same tifs tifs' r m g = ground arith

  map_with_same :
      (types types' : OrderType → Option ℕ) (tifs tifs' : Tif → Option ℕ) (r : Order E.Msg E.Double)
      → (r.order_type_set ≡ true → types r.order_type ≡ types' r.order_type)
      → (r.tif_set ≡ true → tifs r.tif ≡ tifs' r.tif)
      → map_with E types tifs r ≡ map_with E types' tifs' r
  unfolding map_with
  map_with_same types types' tifs tifs' r h g = grind (arith, with_tif_same tifs tifs' r)

  -- The specialisation for lseCodec makes of every order the message and the result that the
  -- template makes of it. The one for osloCodec does so for an order whose type, if set, is market
  -- or limit, and whose time in force, if set, is not GFA, CPX or GFX.
  pub lse_map_order_fields_lem :
      (r : Order E.Msg E.Double)
      → (lse_map_order_fields E r ≡ map_order_fields E r)
        × ((r.order_type_set ≡ true → order_type_code r.order_type ≤ 1)
            → (r.tif_set ≡ true → SameTif r.tif)
            → oslo_map_order_fields E r ≡ map_order_fields E r)
  unfolding lse_map_order_fields oslo_map_order_fields map_order_fields
  lse_map_order_fields_lem r = (
    map_with_same _ _ _ _ r (λ e. lse_type_number_lem r.order_type) (λ e. lse_tif_number_lem r.tif),
    λ h g.
        map_with_same _ _ _ _ r (λ e. oslo_type_number_lem r.order_type (h e))
          (λ e. oslo_tif_number_lem r.tif (g e)),
  )
