-- ===== src/Tests/Decimal.antt =====
-- Numbers as text at concrete values.
use os_tp.Base.{◌≡◌, refl, pos, negsuc}
use os_tp.Decimal.{codes, count_digits, digits_loop, print_int, print_nat, digits_from}

minus_forty_two : print_int (negsuc 41) ≡ codes "-42"
unfolding print_int print_nat digits_from
minus_forty_two = refl

nothing_left : count_digits (pos 0) ≡ 1
unfolding count_digits digits_loop
nothing_left = refl
