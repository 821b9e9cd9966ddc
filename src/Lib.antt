-- ===== src/Lib.antt =====
-- A model of the planning core of accel, a Go library for GPU compute and graphics: the linear
-- allocator of device memory, and what a command graph goes through when it is built.
--
-- The parts. A recorder numbers the nodes of a graph in the order in which they are recorded, each
-- with the ranges of the resources that it reads and writes. A build infers the edges between the
-- nodes from those ranges, fills a reachability matrix, plans the barriers, and packs the graph's
-- transient buffers into one pool, where two may share bytes if reachability orders their users;
-- each sharing adds a handover barrier to the plan. Graphs may have their transients in one shared
-- pool, which then runs one of them at a time. A graph may leave buffers open as slots, which are
-- bound once it is built, and it then runs; a buffer lives until it is closed and nothing holds it.
-- An allocator cuts device memory into blocks. Formats and vertex layouts are checked when a
-- pipeline or a copy is made. The kernel compiler lays a uniform struct out, and generates for it a
-- codec for the host and a declaration for the device.
--
-- The files.
--   Base          the helpers: Boolean tests, lists by native numbers, membership, bits and words,
--                 rounding, 64-bit arithmetic, results with errors, a stable sort.
--   Alloc         internal/alloc/alloc.go: allocations, statistics and errors. Alloc/Params has the
--                 checks that the allocators share, `checkParams`, `checkOwner`, `checkGranularity`.
--   Alloc/Bump    internal/alloc/bump.go: `NewBump`, `Alloc`, `Free`, `Reset` and `Stats`.
--   Graph         infer.go and record.go: accesses, nodes, spans, `overlaps`, `covers` and `key`.
--                 Graph/RefMap is the map from resources.
--   Graph/Infer   infer.go: `inferEdges`, `addEdge`, `commit`, `keepUncovered`, `assertAcyclic`.
--   Graph/Reach   infer.go: `reachability` and `reaches`.
--   Graph/Barrier barrier.go: `planBarriers`, `commitRange`, `update`, `clearPending`.
--   Graph/Alias   alias.go: `compatible`, `packTransients`, `lowestFreeOffset`, `firstGap`, and in
--                 Graph/Alias/Handover `planHandovers` and `requireBarrier`; Graph/Alias/Reads has
--                 `checkTransientsAreWritten`. `alignUp` is of build.go.
--   Graph/Binding submit.go: `checkBinding`, `bindAll`, `checkOverlaps`, and in Graph/Binding/Build
--                 `slotWrites`, `concreteSpans` and what a build sets up.
--   Graph/Run     submit.go: `run`, by any callers, and `checkBoundAtSubmit`, with the pool's claim, and
--                 `Graph.Close` of graph.go.
--   Resource      resource.go, and in buffer.go `Close`, past its refusal of a transient buffer, and
--                 `release`.
--   Buffer        buffer.go: `ViewAs`, and the checks and the byte range of a view.
--   TransientPool transientpool.go: `NewTransientPool`, `reserve`, `release`, `begin`, `end`, `Close`.
--   VertexLayout  vertexlayout.go: the attribute formats and `checkVertexLayout`.
--   Format        format.go: the table, `FormatInfo`, `plan` and the row pitches. The formats are
--                 listed in texture.go, their spellings in a plan in internal/driver/format.go. A
--                 number that names no format is not modelled.
--   TextureView   textureview.go: `Subresource`, `mipExtent` and `levelPitch`, and in
--                 TextureView/View `View` and `incompatible`.
--   Texture       texturealloc.go: `validateTexture`, `textureBytes`, `mipChainLength`.
--   Uniform       uniform.go: the writer and the reader of a uniform block.
--   Std140        internal/kernelc/std140/std140.go: the layout of a struct as a uniform block.
--   Codec         the codec that internal/kernelc/emit/emit.go generates for a layout, which uses the
--                 writer and the reader, and in Codec/Msl the struct that internal/kernelc/emit/msl.go
--                 declares for it. `uniformFields` is of internal/kernelc/front/front.go.
--
-- The correspondence. A method is a function that takes its receiver and returns it changed. A
-- pointer is an address or an index into a store, so that two handles may name one object; a nil
-- pointer is `none`, as is the number -1 where the code uses it for a missing node. A map is an
-- association list, a sort an insertion sort, and the reachability matrix a list of its rows.
--
-- Bounds. In the allocator, the shared pool, the vertex layouts, the views of buffers and the
-- uniform blocks an `int` is a 64-bit pattern and wraps around. The allocator's theorems ask that
-- sizes and alignments are at most 2 ^ 61, which leaves room for two roundings; Alloc/Bump/Overflow
-- is about sizes beyond. Elsewhere offsets, sizes, widths and node numbers are natural numbers, and
-- overflow is not modelled: the recorder checks ranges against the resource. Loops are recursions
-- on lists or on a count, but for `mipChainLength`, whose fuel is proved to be enough. The driver's
-- `Alloc` of a shared pool is a parameter, of which a theorem asks that it returns a block that is
-- not allocated already.
--
-- Not modelled: the two-level allocator, the recorder's and the build's other checks, the queue and
-- its fences, the device calls of textures, rendering and surfaces, the rest of the kernel
-- compiler, the backends, the tensor library and all floating-point code. Mutexes are left out:
-- each operation of the allocator holds its own throughout, and a graph's run is in the steps that
-- it takes under the graph's lock; a counter of holds changes in one atomic step. The labels of a
-- barrier's reasons come from descriptors, by a function `label`.
pub mod Base
pub mod Alloc
pub mod Graph
pub mod TransientPool
pub mod VertexLayout
pub mod Format
pub mod Std140
pub mod Resource
pub mod Buffer
pub mod TextureView
pub mod Uniform
pub mod Codec
pub mod Texture
