-- ===== src/Lib.antt =====
-- A model of the readers of cae-openusd-plugins, a set of OpenUSD plugins for files of simulation
-- data, in three of the file formats.
--
-- The binary Eclipse files (source/file_formats/eclipse/src/EclipseBinaryFile.cpp and its header)
-- are a list of items, each a header and data blocks between markers of their length. An index lists
-- the items with the byte ranges of their blocks, and a loader reads the values of one of them.
--   Stream         std::ifstream, with its position and state bits
--   Eclipse.Words  ReadUInt32, ReadUInt64, ReadInt32 and the byte order
--   Eclipse.Text   CaeTrimRight, CaeToUpper, CaeToLower
--   Eclipse.Record the records, the sizes of their types, and the exceptions
--   Eclipse.Index  ReadExact to CaeFindFirstEclipseRecord: one function for each function of the
--                  source, and one for each round of a loop. Framing is the grammar of a file as
--                  positions in its bytes, which Sound and Complete relate to the reader.
--   Eclipse.Load   ReadRecordBytes and the loaders of integers, floating-point values and text
--
-- The text decks of Eclipse (source/file_formats/eclipse/src/OmniSciGrdeclFileFormat.cpp) describe a
-- grid by keywords, each with a record of tokens up to a slash, and include each other. A parse finds
-- the dimensions and the files that hold the arrays; a loader reads an array again when it is asked
-- for.
--   Eclipse.Deck   DeckTokenizer and the readers of records. A tokenizer is, for the loops over it,
--                  the tokens that it has still to give, which Exhaust relates to Next. Numbers has
--                  ParseInt to ExpandIntToken; Grid has GridInfo, the sets of keywords and the records;
--                  Parse has ParseDeckFile and ParseDeck; Arrays has the loaders. Sound has what a
--                  parse keeps, up to the loading of what it has found
--
-- The OpenFOAM reader (source/file_formats/openfoam/src/OmniSciOpenFoamFileFormat.cpp) starts from the
-- boundary file of a mesh, which lists its patches.
--   Foam           SkipWsAndComments, ReadToken, ReadHeader and ParseHeaderInfo
--   Foam.Boundary  ParseBoundaryFile; Ends and Print are about it
--
-- The VTK reader (source/file_formats/vtk/src) reads payloads that are raw, base64 or compressed,
-- with several threads, and caches what it has parsed.
--   Vtk.Types      Types.h and Types.cpp: scalar types and the byte swap
--   Vtk.Sizes      the checked sizes of ParserUtils.cpp, FileHandle.cpp and ScalarPayloadReader.cpp
--   Vtk.Workers    the parallel loop of PXR, as tasks in the order of a schedule
--   Vtk.Range      FileHandle.cpp: reads of byte ranges, by one task or by several
--   Vtk.Base64     FileHandle.cpp: DecodeBase64Quartet and DecodeBase64Into
--   Vtk.Segment    FileHandle.cpp: the readers of raw and of base64 segments
--   Vtk.Ascii      FileHandle.cpp: the reader of ASCII segments
--   Vtk.Blocks     ScalarPayloadReader.cpp: the layout of compressed blocks
--   Vtk.Payload    ScalarPayloadReader.cpp: the two payload readers and the batches of blocks
--   Vtk.Tokens     ParserUtils.cpp: scalar type tokens and array shapes
--   Vtk.Registry   ParserUtils.cpp: ArrayNameRegistry
--   Vtk.DatasetSpec  DatasetSpec.h: the metadata that a parser returns and the reader takes
--   Vtk.Action     a method that may throw and changes a state, with rules for what it keeps
--   Vtk.Scan       LegacyParser.cpp: ReadToken to SkipBinaryLegacyString, on a stream
--   Vtk.Legacy     LegacyParser.cpp: payloads, Arrays, Sections, Parse (the loop of
--                  LegacyTokenParser) and File (LegacyParser). Sound has what a parse keeps, up to
--                  the reader of what it has found
--   Vtk.Cache      DatasetSpecCache.cpp: the cache, its signatures and its eviction; Steps has the
--                  interleaved steps of its threads as a relation
--
-- A function that throws returns a Result with the exception. A file is its bytes, or none where it
-- does not open; it does not change while it is read. Sizes are natural numbers, with a remainder by
-- 2 ^ 64 written where a sum or a product of the source can wrap around. The loops over an Eclipse
-- file have one more than its length as fuel, since each round reads eight bytes or more; the
-- eviction has one round for each entry. The sections of a legacy file have its length as fuel, since
-- each takes a byte or more, and a search for an unused name has one round more than there are names. The
-- tokens of a deck are at most its bytes, and files include each other over 66 levels, since the
-- code refuses a file at depth 65. A loop over the tokens of an OpenFOAM file has one round more
-- than there are bytes.
-- Arithmetic on int that overflows is undefined in the source, and an error here.
--
-- Parameters: the conversions of floating-point numbers (Floats), the concurrency limit and the order
-- of the workers (Vtk.Range), the byte order of the host, the parse of an ASCII value (Vtk.Ascii), the
-- decompressors (Vtk.Payload), std::stod, strtod, CaeResolveSiblingAsset
-- (Eclipse.Deck), TfStringTrim, TfMakeValidIdentifier and the order in which
-- the arguments of a call are evaluated (Vtk.Legacy), the outcome of a parse, the result of
-- computing a signature and the order of a map's iteration (Vtk.Cache), and what std::filesystem says
-- of a file (Vtk.Cache.Signature).
--
-- Not modelled: null pointers as targets, allocation failures, debug messages, the XML parser
-- of the VTK reader and its boxing of arrays, the other file formats, the shared file-format
-- layer, the resolver, the schemas and the Python code.
pub mod Prelude
pub mod Codec
pub mod Stream
pub mod Vtk
pub mod Eclipse
pub mod Foam
