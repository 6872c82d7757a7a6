-- ===== src/Utils/Tests.antt =====
-- Concrete texts: the theorems at inputs where their hypotheses hold.
use fit_go.Base.{◌≡◌, refl, codes, pos}
use fit_go.Utils.Strings.{mask_string, ellipsis_middle, ellipsis_to}
use fit_go.Utils.Lengths.{mask_string-hides}

shortens : ellipsis_middle (codes "abcdefghijklmnop") (pos 10) ≡ codes "abc...mnop"
unfolding ellipsis_middle ellipsis_to
shortens = refl

mask_string-hides_example :
    mask_string (codes "secret-1") b'*' ≡ mask_string (codes "sesame-1") b'*'
mask_string-hides_example = mask_string-hides b's' b'1' b'*' (codes "ecret-") (codes "esame-") refl
