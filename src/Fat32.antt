-- ===== src/Fat32.antt =====
-- fs/fat32_inode.c, fs/fat32_disk.c and fs/fat32_stack.c with include/fs/fat32_*.h: the FAT32 file
-- system over the cache of driver/buffer.c. Layout has the geometry and the bytes on the disk, Volume
-- the state and the access to sectors, Table the allocation table, Name the names of directory
-- entries, Inode the inodes in memory, Data reading and writing, Dir the directories.
pub mod Layout
pub mod Volume
pub mod Table
pub mod Name
pub mod Inode
pub mod Data
pub mod Remove
pub mod Dir
pub mod Create
pub mod Mount
mod Tests
