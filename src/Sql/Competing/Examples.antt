-- ===== src/Sql/Competing/Examples.antt =====
-- The theorems on competing subscribers, at concrete inputs.
use natricine.Prelude.{◌≡◌, refl, some, [], ◌∷◌}
use natricine.Sql.Dialect.{Row, new_row, postgres, select_pending}
use natricine.Sql.Competing.{Consumers, fetch, Steps}
use natricine.Sql.Competing.Deliveries.{delivered_twice}

abbrev order : Row
order = new_row 3 1 "7" (1 ∷ []) "{}" "default"

abbrev idle : Consumers
idle = record {
  table = record { rows = order ∷ []; last_id = 1 };
  batches = λ i. [];
  delivered = [];
}

delivered_twice_example :
    (t : Consumers) × Steps postgres "default" 10 30 idle t × (t.delivered ≡ (1, 1) ∷ (0, 1) ∷ [])
unfolding select_pending postgres
delivered_twice_example = delivered_twice postgres "default" 10 30 5 idle order [] refl refl refl

-- The first row is acked already, by a subscriber to which it was delivered; the second waits.
abbrev done : Consumers
done = record {
  table = record {
    rows = record order { acked_at = some 6 } ∷ new_row 7 2 "8" (2 ∷ []) "{}" "default" ∷ [];
    last_id = 2;
  };
  batches = λ i. [];
  delivered = (0, 1) ∷ [];
}

abbrev fetched : Consumers
fetched = fetch postgres "default" 10 50 1 done

abbrev waiting : Row
waiting = new_row 7 2 "8" (2 ∷ []) "{}" "default"
