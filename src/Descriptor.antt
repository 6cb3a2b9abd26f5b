-- ===== src/Descriptor.antt =====
-- The descriptors and the table indices of kernel/memory/mmu.cpp, and the attributes of
-- kernel/memory/mmu.hpp.
pub mod Fields
use planetoid_os.Base.{ℕ, bit_and, bit_or, ◌<<◌, ◌>>◌}

abbrev pub table_descriptor : ℕ
table_descriptor = 0b11

abbrev pub block_descriptor : ℕ
block_descriptor = 0b01

abbrev pub page_descriptor : ℕ
page_descriptor = 0b11

abbrev pub address_mask : ℕ
address_mask = 0x0000_FFFF_FFFF_F000

-- `MemoryBlockAttributes`
abbrev pub attr_normal_memory : ℕ
attr_normal_memory = 0 << 2

abbrev pub attr_device_memory : ℕ
attr_device_memory = 1 << 2

abbrev pub attr_access : ℕ
attr_access = 1 << 10

abbrev pub attr_shareable : ℕ
attr_shareable = 0b11 << 8

abbrev pub attr_el1_rw : ℕ
attr_el1_rw = 0b00 << 6

abbrev pub attr_el1_ro : ℕ
attr_el1_ro = 0b10 << 6

abbrev pub attr_pxn : ℕ
attr_pxn = 1 << 53

abbrev pub attr_uxn : ℕ
attr_uxn = 1 << 54

infixl 30 ◌|||◌
abbrev ◌|||◌ : ℕ → ℕ → ℕ
◌|||◌ = bit_or

unfoldable pub make_table_descriptor : ℕ → ℕ
make_table_descriptor address = bit_and address address_mask ||| table_descriptor

unfoldable pub make_normal_block_descriptor : (address permissions : ℕ) → ℕ
make_normal_block_descriptor address permissions =
    bit_and address address_mask
    ||| block_descriptor
    ||| attr_normal_memory
    ||| attr_access
    ||| attr_shareable
    ||| permissions

unfoldable pub make_device_block_descriptor : (address permissions : ℕ) → ℕ
make_device_block_descriptor address permissions =
    bit_and address address_mask
    ||| block_descriptor
    ||| attr_device_memory
    ||| attr_access
    ||| permissions

unfoldable pub make_normal_page_descriptor : (address permissions : ℕ) → ℕ
make_normal_page_descriptor address permissions =
    bit_and address address_mask
    ||| page_descriptor
    ||| attr_normal_memory
    ||| attr_access
    ||| attr_shareable
    ||| permissions

unfoldable pub make_device_page_descriptor : (address permissions : ℕ) → ℕ
make_device_page_descriptor address permissions =
    bit_and address address_mask
    ||| page_descriptor
    ||| attr_device_memory
    ||| attr_access
    ||| permissions

unfoldable pub get_level1_index : ℕ → ℕ
get_level1_index virtual_address = bit_and (virtual_address >> 30) 0x1FF

unfoldable pub get_level2_index : ℕ → ℕ
get_level2_index virtual_address = bit_and (virtual_address >> 21) 0x1FF

unfoldable pub get_level3_index : ℕ → ℕ
get_level3_index virtual_address = bit_and (virtual_address >> 12) 0x1FF
