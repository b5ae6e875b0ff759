-- ===== src/Utils/Pem/Bare.antt =====
-- A certificate block with nothing between its marks, for tests.
use cert_publisher.Prelude.{◌≡◌, refl, ◌++◌, ◌∷◌}
use cert_publisher.Resources.{Bytes}
use cert_publisher.Effects.{ok}
use cert_publisher.Utils.Pem.{
  begin_mark, end_mark, after_mark, or_else, prepend, at_end, to_end, block, search_block, or_raise,
  leaf_pem,
}

abbrev pub bare : Bytes
bare = begin_mark ++ 10 ∷ end_mark

pub leaf_pem-bare : leaf_pem bare ≡ ok bare
unfolding leaf_pem or_raise search_block block to_end at_end prepend or_else after_mark
leaf_pem-bare = refl
