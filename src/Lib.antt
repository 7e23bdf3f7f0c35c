-- ===== src/Lib.antt =====
-- The containers of csg/core: intrusive lists whose links are words that name either an entry or
-- an item.
--
-- The program is the header library under include/csg/core. utility.h packs a pointer and the
-- index of its type into one machine word, and intrusive.h builds the links of the lists on it: an
-- entry_ref_codec makes a link from the address of an entry (the list's own end) or of an item,
-- and finds the entry back, by invoking the caller's extractor or by adding a fixed offset.
-- tailq.h is the doubly linked list, slist.h and stailq.h are the singly linked ones.
--
-- Files:
-- Prelude passes on the library names and adds what the components share: Boolean tests on ℕ
-- (Prelude/Tests), lists over the native ℕ (Prelude/Lists), and lists of distinct addresses
-- (Prelude/Addresses).
-- Utility models utility.h: type_index, tagged_ptr_union by its word, and the two projection
-- helpers.
-- Intrusive models intrusive.h: the record EntryRefCodec is what the lists use of entry_ref_codec,
-- Intrusive/Invocable and Intrusive/Offset are its two implementations, and Intrusive/Size is
-- no_size and the integral size members, a width in bits and a count that wraps around.
-- Tailq models tailq.h. Memory holds the links next and prev of the entry at each address, and
-- Head the address of m_endEntry and the value of m_sz (Tailq/Memory). Iterators are words
-- (Tailq/Iterator). Operations on one item are in Tailq/Element, those on ranges in Tailq/Range,
-- the constructors and assignments of heads in Tailq/Head, those of tailq_proxy in Tailq/Proxy,
-- the walks through a whole list in Tailq/Scan, and merge and sort in Tailq/Merge.
-- Tailq/Merge/Reference says what a merge is, independently of links, and the record Lanes
-- (Tailq/Merge/Lanes) is what the loop of a merge asks of the two lists: merge fills it with two
-- lists (Lists), merge_sort with the halves of one (Parts, Sort). Tailq/Client has the sequences
-- of calls that a client may make, as a step relation on lists of items. IsTailq (Tailq/Valid) is
-- the representation relation: the entries around the end entry are those of a list of items, in
-- order, and the size member counts them. Links, Cycle, Relink and Unlink are about chains of
-- links alone, Attach, Walk and Frame lift them to IsTailq.
-- Chain models listfwd.h, whose code is forward_list_merge_sort, and what slist.h and stailq.h
-- have in common: one link for each entry, with 0 as the null link. IsForward (Chain/Forward) is a
-- null-terminated chain of items from a head entry; Ranges, Splice and Heads relink parts of it
-- and whole chains, Scan, Merge and Sort are forward_list_merge_sort, and Visit is for_each_safe.
-- Slist and Stailq model those two files, each with its Head, its operations on one item
-- (Element), its operations on ranges and whole lists (Range), how its heads are made, swapped and
-- moved (Head), and its proxy (Proxy). Their theorems apply those of Chain to their own functions.
-- IsSlist (Slist/Laws) is IsForward with a size member that counts the items. IsStailq
-- (Stailq/Laws) is the representation relation of the queue: a null-terminated chain of the items
-- from the head entry, with m_encodedTail as the link to the last of them.
-- Examples holds concrete lists, tests and applications of the theorems to them.
--
-- A module that uses a codec takes it as a parameter, so that its theorems hold for both codecs.
-- The laws of the record (get_entry-direct, direct-raw, get_value-item, item-ne-null,
-- entry-ne-null) are about the addresses that a codec accepts: those that are not null, and even
-- where the word is tagged.
--
-- A size member is given by its width w, and its arithmetic is modulo 2 ^ w. A count below 2 ^ w
-- matters only where a size is read. The distance that tailq.h adds to a size member or subtracts
-- from one is of the signed difference_type of the list that is walked, and is converted
-- (Tailq/Difference); it wraps around also where the type is as wide as int and the source has an
-- overflow. All other distances and sizes are unbounded numbers until they are stored. A loop
-- takes fuel, one unit for each round, and none is the result when it runs out. One unit more than
-- the range has items is enough for a walk, for reverse and for sort, two more for remove_if and
-- unique of tailq.h, and the sum of the lengths and one more for merge. The depth of merge_sort is
-- bounded by the number of items.
--
-- Not modelled: the extractors, comparisons, predicates and projections are the caller's, and are
-- parameters. Object lifetimes, exceptions, noexcept, constexpr and the C++ concepts have no
-- counterpart, and an iterator is not tied to its container. An integral size member is taken as
-- unsigned. Swapping the extractor objects is not modelled, since both lists of an operation have
-- the same codec. for_each_safe is modelled once, for the singly linked list; the copies in
-- stailq.h, tailq.h and intrusive.h are not. A list is told by the address of its end or head
-- entry, so that two proxies of one head are one list, where merge compares the addresses of the
-- list objects. swap_sizes and swap_lists are defined also for two size members of different
-- widths, where std::swap in the source does not compile. splice(pos, other) has no result where
-- only the other list has a size member, since the source does not compile there.
pub mod Prelude
pub mod Utility
pub mod Intrusive
pub mod Tailq
pub mod Chain
pub mod Slist
pub mod Stailq
pub mod Examples
