-- ===== src/MemoryMap.antt =====
-- kernel/memory/memory_map.hpp and kernel/memory/memory_map.cpp. The array `regions` is cut to its
-- first `count` entries, which are the ones that its one reader looks at.
use planetoid_os.Base.{Bool, List, [], ◌∷◌, if◌then◌else◌, ℕ}

pub data RegionType : Type 0 where
  usable reserved device : RegionType

pub record MemoryRegion : Type 0 where
  pub base : ℕ
  pub size : ℕ
  pub type : RegionType

-- The argument is `OS_PLATFORM_PI5`.
unfoldable pub get_memory_map : Bool → List MemoryRegion
get_memory_map pi5 =
    if pi5
    then record { base = 0; size = 0x40000000; type = usable } ∷ []
    else record { base = 0x40000000; size = 0x100000000; type = usable } ∷ []
