-- ===== src/Descriptor/Fields.antt =====
-- What a walk of the tables reads back from a descriptor: its type in the two low bits and its
-- address under the mask.
use planetoid_os.Base.{
  ℕ, zero, suc, ◌+◌, ◌-◌, ◌*◌, ◌/◌, ◌%◌, ◌^◌, ◌<◌, ◌≡◌, refl, ap, ◌∙◌, arith, bit_and, bit_or,
}
use planetoid_os.Base.Bits.{bit_and_shifted, bit_and_mask, bit_and-bit_or, bit_or-zero}
use planetoid_os.Descriptor.{
  address_mask, make_table_descriptor, make_normal_page_descriptor, make_device_page_descriptor,
  make_normal_block_descriptor, attr_el1_rw, block_descriptor, get_level1_index, get_level2_index,
  get_level3_index,
}

-- The page of an address of at most 48 bits.
pub masked : (a : ℕ) → bit_and a address_mask ≡ a / 4096 % 2 ^ 36 * 4096
masked a = bit_and_shifted 12 a (2 ^ 36 - 1) ∙ ap (λ (t : ℕ). t * 4096) (bit_and_mask 36 (a / 4096))

pub masked_page : (a : ℕ) → a % 4096 ≡ 0 → a < 2 ^ 48 → bit_and a address_mask ≡ a
masked_page a aligned small = omega (arith, masked a)

pub low_two : (a : ℕ) → bit_and a 0b11 ≡ a % 4
low_two = bit_and_mask 2

pub low_twelve : (a : ℕ) → bit_and a 0xFFF ≡ a % 4096
low_twelve = bit_and_mask 12

or_three : (r : ℕ) → r < 4 → (bit_or 3 r ≡ 3) × (bit_or r 3 ≡ 3)
or_three zero h = (refl, refl)
or_three (suc zero) h = (refl, refl)
or_three (suc (suc zero)) h = (refl, refl)
or_three (suc (suc (suc zero))) h = (refl, refl)
or_three (suc (suc (suc (suc r)))) h = absurd (omega arith)

type_or : (a r : ℕ) → bit_and a 0b11 ≡ 0b11 → bit_and (bit_or a r) 0b11 ≡ 0b11
type_or a r e = rw (bit_and-bit_or, e, low_two r) (or_three (r % 4) (omega arith)).0

type_three : (a : ℕ) → bit_and (bit_or a 0b11) 0b11 ≡ 0b11
type_three a = rw (bit_and-bit_or, low_two a) (or_three (a % 4) (omega arith)).1

address_or :
    (a r : ℕ)
    → bit_and r address_mask ≡ 0
    → bit_and (bit_or a r) address_mask ≡ bit_and a address_mask
address_or a r clear = rw (bit_and-bit_or, clear) (bit_or-zero _)

-- The permissions of a mapping leave the address field alone.
abbrev pub IsPermissions : ℕ → Type 0
IsPermissions permissions = bit_and permissions address_mask ≡ 0

masked_twice : (a : ℕ) → bit_and (bit_and a address_mask) address_mask ≡ bit_and a address_mask
masked_twice a = omega (arith, masked a, masked (bit_and a address_mask))

pub table-address :
    (a : ℕ) → bit_and (make_table_descriptor a) address_mask ≡ bit_and a address_mask
unfolding make_table_descriptor
table-address a = address_or _ 0b11 refl ∙ masked_twice a

pub table-type : (a : ℕ) → bit_and (make_table_descriptor a) 0b11 ≡ 0b11
unfolding make_table_descriptor
table-type a = type_three _

module _ (a permissions : ℕ) where
  pub normal_page-address :
      IsPermissions permissions
      → bit_and (make_normal_page_descriptor a permissions) address_mask ≡ bit_and a address_mask
  unfolding make_normal_page_descriptor
  normal_page-address clear =
      address_or _ permissions clear
      ∙ address_or _ _ refl
      ∙ address_or _ _ refl
      ∙ address_or _ _ refl
      ∙ address_or _ _ refl
      ∙ masked_twice a

  pub device_page-address :
      IsPermissions permissions
      → bit_and (make_device_page_descriptor a permissions) address_mask ≡ bit_and a address_mask
  unfolding make_device_page_descriptor
  device_page-address clear =
      address_or _ permissions clear
      ∙ address_or _ _ refl
      ∙ address_or _ _ refl
      ∙ address_or _ _ refl
      ∙ masked_twice a

  pub normal_page-type : bit_and (make_normal_page_descriptor a permissions) 0b11 ≡ 0b11
  unfolding make_normal_page_descriptor
  normal_page-type = type_or _ permissions (type_or _ _ (type_or _ _ (type_or _ _ (type_three _))))

  pub device_page-type : bit_and (make_device_page_descriptor a permissions) 0b11 ≡ 0b11
  unfolding make_device_page_descriptor
  device_page-type = type_or _ permissions (type_or _ _ (type_or _ _ (type_three _)))

-- The address field has no type bits.
address-type : (a : ℕ) → bit_and (bit_and a address_mask) 0b11 ≡ 0
address-type a = omega (arith, low_two (bit_and a address_mask), masked a)

pub normal_block-type :
    (a : ℕ) → bit_and (make_normal_block_descriptor a attr_el1_rw) 0b11 ≡ block_descriptor
unfolding make_normal_block_descriptor
normal_block-type a =
    rw
      (
        bit_and-bit_or,
        bit_and-bit_or,
        bit_and-bit_or,
        bit_and-bit_or,
        bit_and-bit_or,
        address-type a,
      )
      refl

pub level1-lt : (va : ℕ) → get_level1_index va < 512
unfolding get_level1_index
level1-lt va = omega (arith, bit_and_mask 9 (va / 2 ^ 30))

pub level2-lt : (va : ℕ) → get_level2_index va < 512
unfolding get_level2_index
level2-lt va = omega (arith, bit_and_mask 9 (va / 2 ^ 21))

pub level3-lt : (va : ℕ) → get_level3_index va < 512
unfolding get_level3_index
level3-lt va = omega (arith, bit_and_mask 9 (va / 2 ^ 12))

-- Inside the 39 bits that the tables translate, the three indices are the page.
pub page_of_indices :
    (va : ℕ)
    → va < 2 ^ 39
    → (get_level1_index va * 512 + get_level2_index va) * 512 + get_level3_index va ≡ va / 4096
unfolding get_level1_index get_level2_index get_level3_index
page_of_indices va small = omega (
  arith,
  bit_and_mask 9 (va / 2 ^ 30),
  bit_and_mask 9 (va / 2 ^ 21),
  bit_and_mask 9 (va / 2 ^ 12),
)
