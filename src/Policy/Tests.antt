-- ===== src/Policy/Tests.antt =====
-- The path check on concrete texts.
use aads.Prelude.{◌≡◌, refl, false}
use aads.Policy.{within}
use aads.Policy.NormPath.{normpath}

normpath_dots : normpath "/etc/../x//y/./" ≡ "/x/y"
unfolding normpath
normpath_dots = refl

normpath_two_slashes : normpath "//etc/a" ≡ "//etc/a"
unfolding normpath
normpath_two_slashes = refl

normpath_relative : normpath "../../a/.." ≡ "../.."
unfolding normpath
normpath_relative = refl

within_sibling : within "/etc/nginx2" "/etc/nginx" ≡ false
unfolding within
within_sibling = refl
