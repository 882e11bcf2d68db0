-- ===== src/Fat.antt =====
-- simulator/src/pugputer/fat16_image.cpp and simulator/include/pugputer/fat16_image.hpp: the layout
-- of a FAT16 volume (Geometry), its boot sector and byte fields (Boot), the cluster chains (Chains),
-- directory entries (Entries), the tree of directories (Tree) and the clusters of the whole (Volume),
-- and what is proved of them.
pub mod Geometry
pub mod Boot
pub mod Chains
pub mod Regions
pub mod Linked
pub mod Fields
pub mod Entries
pub mod NameField
pub mod Named
pub mod Tree
pub mod Placed
pub mod Volume
pub mod Sized
pub mod Allocated
pub mod TooShort
mod Tests
