-- ===== src/Kube/Filling.antt =====
-- Filling in what is empty (`util.EmptyOr`).
use frp_provisioner.Prelude.{String, Bool, false, Option, ◌==◌, ◌≡◌, arith}
use frp_provisioner.Prelude.Int.{ℤ, is_zero}
use frp_provisioner.Kube.Libraries.{Machinery, IsLawful}

module _ (L : Machinery) (lawful : IsLawful L) where
  pub text_twice : (v d : String) → L.empty_or_text (L.empty_or_text v d) d ≡ L.empty_or_text v d
  text_twice v d =
      rw (lawful.empty_or_text_lem (L.empty_or_text v d) d, lawful.empty_or_text_lem v d)
        (ground arith)

  pub int_twice : (v d : ℤ) → L.empty_or_int (L.empty_or_int v d) d ≡ L.empty_or_int v d
  int_twice v d =
      rw (lawful.empty_or_int_lem (L.empty_or_int v d) d, lawful.empty_or_int_lem v d)
        (ground arith)

  pub flag_twice :
      (v d : Option Bool) → L.empty_or_flag (L.empty_or_flag v d) d ≡ L.empty_or_flag v d
  flag_twice v d =
      rw (lawful.empty_or_flag_lem (L.empty_or_flag v d) d, lawful.empty_or_flag_lem v d)
        (ground arith)

  -- With a default that is not empty nothing is left empty.
  pub text_filled : (v d : String) → (d == "") ≡ false → (L.empty_or_text v d == "") ≡ false
  text_filled v d h = rw (lawful.empty_or_text_lem v d) (ground arith)

  pub int_filled : (v d : ℤ) → is_zero d ≡ false → is_zero (L.empty_or_int v d) ≡ false
  int_filled v d h = rw (lawful.empty_or_int_lem v d) (ground arith)
