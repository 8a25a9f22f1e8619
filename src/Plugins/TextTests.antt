-- ===== src/Plugins/TextTests.antt =====
-- The refanging, applied twice.
use null.Prelude.{◌≡◌, refl}
use null.Text.{codes, lower, to_lower, starts_with}
use null.Plugins.Defang.{refanged, patterns, sub, sub_from, literal, scheme}

-- A second pass finds what the first one has made.
twice :
    (refanged patterns (codes "a[{dot}]b") ≡ codes "a[.]b")
    × (refanged patterns (refanged patterns (codes "a[{dot}]b")) ≡ codes "a.b")
unfolding refanged sub sub_from literal scheme lower to_lower starts_with
twice = (refl, refl)
