-- ===== src/Naming/Tests.antt =====
-- Names that are valid and names that are not, and runs of the theorems.
use dicer.Prelude.{ℕ, ◌≤◌, ◌≡◌, refl, true, false, All, []}
use mathlib.Core.List.{reverse}
use dicer.Text.{codes, byte_length}
use dicer.Naming.{ends_well, validate_name, validate_hostname}
use dicer.Naming.Safety.{IsNameRune, validate_name-IsSafe}
use dicer.Naming.Generate.{generate, generate_from_image}
use dicer.Naming.Generated.{generate-IsValid}

kernel_valid : validate_name (codes "vmlinux-6.1") ≡ true
unfolding validate_name
kernel_valid = refl

parent_invalid : validate_name (codes "..") ≡ false
unfolding validate_name
parent_invalid = refl

hyphen_invalid : validate_name (codes "web-") ≡ false
unfolding validate_name
hyphen_invalid = refl

no_hostname : validate_hostname [] ≡ true
unfolding validate_hostname
no_hostname = refl

abbrev four : ℕ → ℕ
four i = 10

generated : generate (codes "web.site--") four ≡ codes "web-site-kkkk"
unfolding generate
generated = refl

generated_from_image :
    generate_from_image (λ s. s) (codes "docker.io/library/nginx:1.27") four ≡ codes "nginx-kkkk"
unfolding generate_from_image
generated_from_image = refl

nothing_left : generate (codes "...") four ≡ codes "instance-kkkk"
unfolding generate
nothing_left = refl

validate_name-IsSafe_example :
    (byte_length (codes "vmlinux-6.1") ≤ 253)
    × All IsNameRune (codes "vmlinux-6.1")
    × (ends_well (codes "vmlinux-6.1") ≡ true)
    × (ends_well (reverse (codes "vmlinux-6.1")) ≡ true)
validate_name-IsSafe_example = validate_name-IsSafe (codes "vmlinux-6.1") kernel_valid

generate-IsValid_example : validate_name (generate (codes "web.site--") four) ≡ true
generate-IsValid_example = generate-IsValid (codes "web.site--") four
