-- ===== src/Lib.antt =====
-- tbconvert: seismic waveforms in an Earthworm tank file, converted to SAC or miniSEED.
--
-- A tank is a file of tracebufs: a header of 64 bytes (include/trace_buf.h) and its samples. The
-- program maps the file into memory and scans it (scan_tracebuf in src/tbconvert.c). In each round
-- the header at the pointer is brought into the byte order of the machine (src/libsrc/swap.c), the
-- node of its trace is found or made in a binary tree (compare_SCNL in src/compare.c), and the
-- place, the length and the time of the tracebuf go to the list of that node. At the end the tree is
-- walked twice: to list the nodes, and to sort the list of each by time. main then goes through the list
-- of nodes. For SAC, sacproc_trace_output joins the tracebufs of each trace to a file
-- (src/sacproc.c); for miniSEED, msproc_tlist_add hands them to libmseed one by one (src/msproc.c),
-- and the list is written at the end. A progress bar counts the traces (src/progbar.c).
--
-- Files:
--   Base        names of the library passed on, Boolean tests, lists and integers over native numbers
--   Memory      memory as a function of the address; numbers of 16, 32 and 64 bits in both byte orders
--   Floating    `float` and `double` as a parameter
--   Header      include/trace_buf.h: the fields of a header at an address; Original is TRACE_HEADER,
--               Changes what the comment says of the new fields, Version the macros on the version,
--               Datatypes the table of data types
--   Swap        src/libsrc/swap.c: the three byte swaps; Swap.MakeLocal is makelocal_wavemsg_ver with
--               its callers. Sides, Numbers, Samples, Data, Contract, Effect and Code lead to
--               Swap.Correct
--   Libc        strcmp, atoi, tfind, tsearch, twalk and qsort as the C standard and POSIX describe
--               them
--   Trace       TBUF and TRACE_NODE of include/tbconvert.h; src/compare.c
--   Scan        the loop of scan_tracebuf: `scan_step` is a round, `dispatch` its branch on the
--               result of the conversion, `skip_byte` the step by one byte, `fetch` the rest;
--               `locate`, `record_packet`, `keep_packet` and `grow` are the parts of the rest.
--               Invariant, Record, Locate, View and Step follow one round, Growth bounds the lists,
--               Progress and Success are about failures, Rounds about a whole run, and
--               Termination about its end; Tank says what a tank holds without the program, and its
--               children that the rounds read just that
--   Walk        tree2list, sort_tlist and the end of scan_tracebuf; Inorder and Sorted are about the
--               list, Sorting about the sorting, Whole and Total about all of it,
--               Inventory and Complete about its result for a tank
--   Command     proc_argv of src/tbconvert.c; Usage is what usage prints
--   OutPath     sacproc_outpath_gen of src/sacproc.c and msproc_outpath_gen of src/msproc.c
--   Progress    src/progbar.c: the two counters
--   Sac         include/sachead.h and the rest of src/sacproc.c: Layout is where the fields of the header
--               are; Fill the loops that set them; Head the functions that set the header; Calendar
--               gmtime; Samples enrich_sac_samps and realloc_outbuf; Extract the loop over the
--               tracebufs, `first_packet` and `next_packet` its rounds, `bridge` the branch on a gap;
--               Output what stands in front of the loop and behind it, with write_sac_file
--   Mseed       msproc_tlist_add of src/msproc.c, `add_packet` a round of its loop; Original is about
--               its records against the tracebufs in their own byte order, Tank about those of a scan
--   Main        main of src/tbconvert.c; Steps, Loops and Totals are about the progress bar, Datatypes
--               about the types of samples, Collected and Whole about all of it with a miniSEED
--               output; Main.Interface is what include/tbconvert.h declares, with the
--               contract of each function, Swap.Interface the same of include/swap.h and swap.c,
--               Sac.Interface of the functions that sacproc.c keeps to itself, and Main.Parts of those of
--               tbconvert.c
--   Tests       a sample tank, and each theorem at a concrete input
--
-- How the code is modelled:
--   * A pointer into the file is an absolute address, a number below 2 ^ 64; sums of a pointer and a
--     `size_t` are taken modulo 2 ^ 64. The product of the width and the number of samples is an
--     integer without bounds, where the C code has an `int`.
--   * A pointer to a TRACE_NODE is its index in the list of all nodes, and an allocation succeeds or
--     fails as a function of its number says. Nothing is assumed of that function where a theorem does
--     not say so.
--   * An array of characters that lacks its terminator runs on into the next field of TRACE_NODE;
--     behind the last one stands a zero byte of padding.
--   * atoi reads ten digits at most: the digits of a data type are followed by the zero bytes or the
--     other text of the header, and a longer number overflows an `int`.
--   * tsearch is the insertion into an unbalanced tree, and qsort is insertion sort: the standards
--     leave both open. What is proved of the loop uses of tsearch only that the tree stays a search
--     tree with the new node in it.
--   * The loop of scan_tracebuf runs on fuel, a number of rounds: it need not end (a header with a
--     negative number of samples can move the pointer back), so fuel that runs out is a result of
--     its own. Where no header does so, a round for each byte of the tank and one more are enough.
--   * The output buffer is the list of the words in front of the pointer `seis`, and its capacity; the
--     words behind it are zero as far as the first allocation goes, and unknown behind that. Sums and
--     products of the type `int` (nsamp_trace, nfill) are integers without bounds.
--   * gmtime counts the days of the years of the Gregorian calendar from 1970 on; a time before that is
--     moved on by whole cycles of 400 years. It returns the null pointer where the year does not fit
--     an `int`.
--   * What the system does (System and Machine) and what libmseed does (Libmseed) are parameters. Of
--     libmseed it is assumed only that a new record has no samples, and that the addition of a record
--     reads no more samples of its buffer than the record says.
--   * A fault stands for what C leaves undefined: a write through a null pointer or behind a buffer or a
--     list, the conversion of a time that an `int32_t` cannot hold, a scan where mmap has failed, or
--     freeing what was not allocated. A read behind the end of the mapping is none in the model: memory
--     has a byte at every address.
--   * Of the miniSEED file there are the arguments of mstl3_writemseed and its result: what it makes of
--     them, and whether the file can be written, is up to libmseed, and main ignores the result.
--
-- Not modelled: the texts that are printed, apart from those of usage and of the option -v; what
-- becomes of mkdir, whose result the program ignores; and libmseed, which is another project's library.
pub mod Base
pub mod Memory
pub mod Swap
pub mod Floating
pub mod Header
pub mod Libc
pub mod Trace
pub mod Scan
pub mod Walk
pub mod Command
pub mod OutPath
pub mod Sac
pub mod Progress
pub mod Mseed
pub mod Main
mod Tests
