-- ===== src/Sentinel/Days.antt =====
-- The thirty days of one service in service/singleton/servicesentinel.go: the
-- arrays and their totals, modulo 2 ^ 64.
use nezha_diff.Base.{
  ℕ, zero, suc, ◌+◌, ◌%◌, ◌<◌, ◌≡◌, refl, List, [], ◌∷◌, arith, length, get_or, set, length-set,
  replicate, length-replicate,
}
use nezha_diff.Word.{word, add_uint, sub_uint}
use nezha_diff.Float64.{Float64}
use nezha_diff.Sentinel.{
  Service, TodayStats, ResponseItem, shift, new_item, refresh_item, roll_item,
}

pub sum : List ℕ → ℕ
sum [] = 0
sum (x ∷ xs) = x + sum xs

pub sum-set :
    (xs : List ℕ) (i v : ℕ) → i < length xs → sum (set xs i v) + get_or xs i 0 ≡ sum xs + v
unfolding sum
sum-set [] i v h = absurd (omega arith)
sum-set (x ∷ xs) zero v h = omega arith
sum-set (x ∷ xs) (suc i) v h = omega (arith, sum-set xs i v)

sum-shift : (xs : List ℕ) → sum (shift 0 xs) + get_or xs 0 0 ≡ sum xs
unfolding sum shift
sum-shift [] = omega arith
sum-shift (x ∷ []) = omega arith
sum-shift (x ∷ y ∷ xs) = omega (arith, sum-shift (y ∷ xs))

length-shift {ℓ} : {A : Type ℓ} (z : A) (xs : List A) → length (shift z xs) ≡ length xs
unfolding shift
length-shift z [] = refl
length-shift z (x ∷ []) = refl
length-shift z (x ∷ y ∷ xs) = omega (arith, length-shift z (y ∷ xs))

sum-replicate : (n : ℕ) → sum (replicate n 0) ≡ 0
unfolding sum
sum-replicate zero = refl
sum-replicate (suc n) = omega (arith, sum-replicate n)

-- The totals follow the sum when a slot is replaced, also past the wrap-around.
replace_wrap :
    (total s s' old new : ℕ)
    → total ≡ s % word
    → s' + old ≡ s + new
    → add_uint (sub_uint total old) new ≡ s' % word
replace_wrap total s s' old new e h = omega arith

remove_wrap :
    (total s s' old : ℕ) → total ≡ s % word → s' + old ≡ s → sub_uint total old ≡ s' % word
remove_wrap total s s' old e h = omega arith

module _ {F : Type 0} where
  -- Thirty days whose totals are ahead of the sums of the arrays.
  pub record IsAhead (up_lead : ℕ) (down_lead : ℕ) (item : ResponseItem F) : Type 0 where
    pub ups : length item.up ≡ 30
    pub downs : length item.down ≡ 30
    pub total_ups : item.total_up ≡ (sum item.up + up_lead) % word
    pub total_downs : item.total_down ≡ (sum item.down + down_lead) % word

  -- The totals are the sums.
  abbrev pub IsTallied : ResponseItem F → Type 0
  IsTallied = IsAhead 0 0

module _ {F : Type 0} ⦃fl : Float64 F⦄ where
  pub new_item-IsTallied : (s : Service F) → IsTallied (new_item s)
  unfolding new_item
  new_item-IsTallied s = record {
    ups = length-replicate {A = ℕ} 30 0;
    downs = length-replicate {A = ℕ} 30 0;
    total_ups = omega (arith, sum-replicate 30);
    total_downs = omega (arith, sum-replicate 30);
  }

  pub refresh_item-IsAhead :
      (u d : ℕ) (s : Service F) (v : TodayStats F) (item : ResponseItem F)
      → IsAhead u d item
      → IsAhead u d (refresh_item s v item)
  unfolding refresh_item
  refresh_item-IsAhead u d s v item h = record {
    ups = omega (arith, length-set item.up 29 v.up);
    downs = omega (arith, length-set item.down 29 v.down);
    total_ups =
        replace_wrap item.total_up (sum item.up + u) (sum (set item.up 29 v.up) + u)
          (get_or item.up 29 0) v.up h.total_ups
          (omega (arith, sum-set item.up 29 v.up (omega arith)));
    total_downs =
        replace_wrap item.total_down (sum item.down + d) (sum (set item.down 29 v.down) + d)
          (get_or item.down 29 0) v.down h.total_downs
          (omega (arith, sum-set item.down 29 v.down (omega arith)));
  }

  pub roll_item-IsAhead :
      (u d : ℕ) (item : ResponseItem F) → IsAhead u d item → IsAhead u d (roll_item item)
  unfolding roll_item
  roll_item-IsAhead u d item h = record {
    ups = omega (arith, length-shift 0 item.up);
    downs = omega (arith, length-shift 0 item.down);
    total_ups =
        remove_wrap item.total_up (sum item.up + u) (sum (shift 0 item.up) + u) (get_or item.up 0 0)
          h.total_ups (omega (arith, sum-shift item.up));
    total_downs =
        remove_wrap item.total_down (sum item.down + d) (sum (shift 0 item.down) + d)
          (get_or item.down 0 0) h.total_downs (omega (arith, sum-shift item.down));
  }
