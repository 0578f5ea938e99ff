-- ===== src/Lib.antt =====
-- fsvfs mounts the archives ("dvdbnd", pairs of a .bhd header and a .bdt data file) of a game as one
-- read-only filesystem. The program hashes the known file names, looks each hash up in the headers,
-- collects the found files into a tree of names (`RofsObject`), lays the tree out in flat arrays
-- (`Rofs`), and serves the mounted filesystem from these: a path is looked up in the arrays, a file is
-- read by aligned reads of the data file and decrypted where its encryption ranges say so.
--
-- The files and the code they model, by paths from the repository's root:
-- * Base and its children: shared names, Boolean tests, lists measured by native numbers, bits,
--   arithmetic modulo n, byte strings.
-- * Hash (src/hash.rs) and Hash/Mad (src/hash/mad.rs): `hash_path32`, `hash_path64`, `mad_hash` by
--   chunks and byte by byte. Strings are lists of UTF-8 bytes; all separators are ASCII. A word type
--   is its modulus and its prime, and every operation is written with `%`. Proofs: Hash/Chunks,
--   Hash/Spec, Hash/Case.
-- * Rofs/Path (src/filesystem.rs, src/cow.rs): components, `normalize_path`, lower case.
-- * Rofs/Object (src/filesystem/object.rs): the tree of names; `RofsObject::new`, `merge`. A hash map is
--   a list of its entries. `none` is a panic. Proofs: Rofs/Object/Put, Grown, Insert,
--   Files, Merge, Overlay, Union, Sizes, Merged.
-- * Rofs/Layout (`RofsObject::into_rofs`): a `Builder` holds the loop's local variables. The loop runs
--   on fuel, one unit a directory and one for the end; Rofs/Layout/Total shows how much is enough.
--   Proofs: Rofs/Layout/Sorted, Names, Entries, Blocks, Loop, Total.
-- * Rofs/Node, Rofs/Lookup (src/filesystem.rs): the nodes and names of a finished filesystem, lookups,
--   entries, and the entries of a directory. Proofs: Rofs/Find, Rofs/Refine, Rofs/Serve.
-- * Rofs/Object/Reduce (src/dvdbnd/filesystem.rs): the objects of all archives, merged one after another where the
--   source reduces in parallel. Proofs: Rofs/Archives, from the objects to lookups.
-- * Encryption (src/dvdbnd/filesystem/encryption.rs): the ids of encryption records, and the window of three
--   buffers from which the ciphertext around one buffer is taken; Encryption/Store stores and loads the ranges of a
--   file, and Encryption/Aes decrypts a piece of ciphertext. The order of bytes in a store is that of
--   the machine, for headers of either order. Proofs: Encryption/Ids, Window, Blocks, Ranges, Loaded.
-- * Aligned (src/dvdbnd/filesystem/aligned.rs): the bounds of a read, and the pieces in which its range is
--   read, with and without windows around it; Aligned/Pool is the pool of buffers of a thread. A pointer is its
--   distance from the pool's start. Proofs: Aligned/Tiles, Buffers.
-- * Unaligned (src/unaligned.rs): integers of a number of bytes, in either order of bytes in memory.
--   Proofs: Unaligned/Bytes, Unaligned/Laws.
-- * Bhd5 (src/dvdbnd/bhd5.rs and src/dvdbnd/bhd5/): the header files of the archives. Bhd5/Fields, Header, Entry,
--   Buckets and File go from the fields to the choice of a layout and of a byte order. A type's layout is packed, so
--   that a cast of the crate `zerocopy` is a read of the fields at their offsets; the lifetime of a reference plays
--   no part, and a `usize` has 64 bits. Proofs: Bhd5/Typed, Validated, Valid, Order.
-- * Aligned/Read (src/dvdbnd/filesystem/aligned.rs): the buffers of the streams. Proofs: Aligned/Streams.
-- * Mount (src/dvdbnd/mount.rs and src/dvdbnd/mount/fuser.rs): Mount/Read and Mount/Decrypt are `read_file`, whose
--   result is all that the callback is given, and how the read ends; Mount/Fuser and Mount/Handlers are the handlers of the
--   crate `fuser`, whose result is the reply. Proofs: Mount/Plain, Mount/Listing, Mount/Replies.
-- * Mount/Open (src/dvdbnd/mount.rs): `from_keys_and_dict`, from the keys of the archives to the filesystem and the data
--   files. Proofs: Mount/Opened, Mount/Opened/Ids.
-- * Mount/Projfs (src/dvdbnd/mount/projfs.rs): the mount on Windows. Mount/Projfs has the open directories with their
--   index and store of UTF-16 names, Mount/Projfs/Table the table of them, Mount/Projfs/Callbacks the callbacks, and
--   Mount/Projfs/Setup the identity of a mountpoint. A callback gives its code and the table afterwards; callbacks run
--   one after another. Proofs: Mount/Projfs/Index, Pages, Scan, Lifetime, History, Writes.
-- * Crypto (src/crypto/rsa.rs): Crypto/Naturals has numbers from bytes and to bytes, Crypto/Rsa the keys and the
--   decryption of blocks. The loop in place runs on fuel, one unit for each byte and one; a step takes at least one
--   byte. Crypto/Reader is the reader that decrypts a stream; its fuel is two for each byte that is asked for, and two,
--   since a step gives a byte or decrypts a block. The buffer in front of the input is taken to give a whole block
--   where there is one. Proofs: Crypto/Value, Agrees, InPlace, Stream.
-- * Dvdbnd (src/dvdbnd/dict.rs and src/dvdbnd/filesystem.rs): Dvdbnd/Dictionary has the names by their hashes,
--   Dvdbnd/Builder the files that are made of a header's entries, and Dvdbnd/Finish the filesystem that is made of all
--   headers. Proofs: Dvdbnd/Files, Dvdbnd/Paths.
-- * Dvdbnd/Walk (src/dvdbnd.rs): the files below a directory, on one unit of fuel for each directory and one for the
--   end. Proofs: Dvdbnd/Tree.
-- * Dvdbnd/Keys (src/dvdbnd/keys.rs): the paths of keys by game, and the search for the keys of archives; a panic is
--   `none`. Proofs: Dvdbnd/Pems, Dvdbnd/Matched.
--
-- Parameters of the model: the crate `eytzinger` (Rofs/Node: `Eytzinger`, with the laws `IsEytzinger` of its
-- documentation). The tests instantiate it with a slice left in its order and a search from the left.
-- A read of the system (Aligned/Read: `ReadAt`) gives an error, no buffer, or one; `Holds` says that it gives the bytes
-- that are there, for lengths from 1 to that of a buffer of the pool. Whether a directory's reply is full, and the archive of a file (Mount/Decrypt: `Storage`), are
-- parameters too, as are the decryption of one block of the crate `aes` and `mod_pow` of the crate `malachite`, whose
-- numbers are those of the library here.
-- What the Projected File System does is a parameter: its comparison and match of names, its decoding of a path, and
-- whether it takes an entry, an info or a piece of a file.
-- The reading of a directory and of a key's file, what the standard library says of a path, and the test of a key at an
-- archive are parameters of Dvdbnd/Walk and Dvdbnd/Keys. Where two hash maps are iterated, their order is that of
-- insertion here; the source's depends on the hashes of the keys.
-- The hash of a header's bytes, the opening of a data file, and what the cache has are parameters of Mount/Open.
-- `sort_unstable_by_key` is modelled by an insertion sort; the names in one directory are distinct.
-- Not modelled: the base64 text of a key, the order in which objects are merged in parallel, the test of a key at a
-- header, the start and stop of the mount on Windows, serialisation to the cache (rkyv), the command line, threads,
-- logging, the windows of the graphical program, and the system calls behind the mounts.

pub mod Base
pub mod Hash
pub mod Encryption
pub mod Aligned
pub mod Bhd5
pub mod Mount
pub mod Crypto
pub mod Dvdbnd
pub mod Rofs
pub mod Unaligned
