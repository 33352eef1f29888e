-- ===== src/Lib.antt =====
-- The display stack of the Casio DT-X400 device tree: the Qualcomm hardware abstraction layer
-- under hardware/display.
--
-- hardware/display/liboverlay owns the pipes of the display processor. The composer asks
-- `Overlay` for pipes while it prepares a frame (getPipe), hands each one its source, crop,
-- position and orientation, commits it, has the kernel driver validate the whole display
-- (validateAndSet), and queues buffers on it; configBegin and configDone bracket the round, and a
-- failed commit or validation clears the display. hardware/display/libgralloc sizes and allocates
-- the buffers that the composer shows. hardware/display/libhwcomposer decides which layers go to
-- the display processor and which to the GPU.
--
-- Paths of sources are below hardware/display/.
--
-- Base.antt             shared helpers: Boolean tests, lists, 32-bit words, counted loops
-- Utils.antt            liboverlay/overlayUtils.h and .cpp: Dim, Whf, normalizeCrop,
--                       preRotateSource, getMdpOrient; theorems in Utils/Crop, Utils/Orient
-- Ctrl.antt             liboverlay/overlayMdp.h and .cpp: MdpCtrl, MdpData; Ctrl/Laws
-- Overlay/State         liboverlay/overlay.h: PipeBook, its bitmaps, availablePipes
-- Overlay/Alloc         liboverlay/overlay.cpp: nextPipe and the policies of getPipe
-- Overlay/Round         liboverlay/overlay.cpp: configBegin, setters, commit, queueBuffer,
--                       validateAndSet, clear, configDone
-- Overlay/Pick, Serve   what nextPipe and getPipe hand out, alone and in a round
-- Overlay/Sweep, Clear  the loops over the book, entry by entry
-- Overlay/Sound, Calls, Histories   the invariant, the calls, and histories of calls
-- Overlay/Table         the table of pipe types and the driver's list
-- Gralloc.antt          libgralloc: formats, the platform's answers, ALIGN
-- Gralloc/Size, Heap    libgralloc/alloc_controller.cpp: dimensions, sizes and planes; heaps and
--                       the allocation
-- Gralloc/Bounds, Room, Planes, Fallback, Buffer   what a buffer has room for, and how it comes about
-- Geometry.antt         libhwcomposer/hwc_utils.cpp: rectangles; Cover, Deduct and Regions are
--                       about the pixels they cover; Sanitize is getSanitizeROI, and Crop
--                       and Optimized are optimizeLayerRects and what shows
-- Composition.antt      libhwcomposer/hwc_mdpcomp.cpp: the overlap tests; Batch is getBatch, Progress
--                       and Count are about its loops
-- Composition/Layers, Marks   libhwcomposer/hwc_mdpcomp.cpp: the tests of a layer, the marks and
--                       counters of a frame; Counted and Cached are about the counters
-- Composition/Stages    libhwcomposer/hwc_mdpcomp.cpp: map and the stages; Stacked and Mapped
-- Composition/Policy    libhwcomposer/hwc_mdpcomp.cpp: the checks and the strategies; Accepted is
--                       about a success
-- Composition/Roi       libhwcomposer/hwc_mdpcomp.cpp: the region that is updated; Hidden
-- Composition/Split     libhwcomposer/hwc_mdpcomp.cpp: the regions of two halves; HiddenHalves
-- Composition/Ptor      libhwcomposer/hwc_mdpcomp.cpp: fullMDPCompWithPTOR; Rest, Exact, Freed and
--                       Searched are about what it leaves of the layers below
-- Rotator/Manager       liboverlay/overlayRotator.h and .cpp: RotMgr; Pool and Refine compare it
--                       with a pool, Delete is about its loops
-- Rotator/Memory        liboverlay/overlayMem.h and overlayRotator.cpp: OvMem, RotMem; Fences
-- Rotator/Mdss, Queue   liboverlay/overlayMdssRot.cpp: the setters and commit, queueBuffer and
--                       remap; Buffers and Caching are about the buffers
-- Rotator/Scale         liboverlay/overlayMdssRot.cpp: crops and factors; Reduce and Factor
-- Hdmi.antt             libhdmi/hdmi.cpp: the table of modes and the choice of one; Best
-- Hdmi/Parse            libhdmi/hdmi.cpp: the list of modes as a text; Printed
-- Hdmi/Display          libhdmi/hdmi.cpp, libqdutils/qd_utils.cpp: configure and the attributes;
--                       Configure and Scaled
-- Copybit/Swap          libhwcomposer/hwc_copybit.cpp: the caches and prepareSwapRect; Unchanged
-- Copybit/Overlap       libhwcomposer/hwc_copybit.cpp: render buffers and prepareOverlap; Placed is
--                       about the places, Held about the buffers
--
-- Each operation takes the state record and its arguments and returns the new state, and a result
-- where the method has one. An array or bitmap of `Overlay` is a function of the index. A
-- dereference of a NULL pipe, or a failed OVASSERT, is `none`. A `uint32_t` is a native number
-- whose arithmetic wraps modulo 2 ^ 32. The loops run over a fixed range and need no fuel, but
-- for the outer loop of getBatch: it can restart at an earlier layer, so it runs on fuel for one
-- round per layer, and a run out of fuel is `none`; each round begins above the one before.
--
-- Kernel headers, ioctls, libscale and the vendor libraries are not in the repository: their
-- constants and answers are parameters (`Hardware`, `Driver`, `MdpBits`). Not modelled: dumps and
-- logs, opening devices, the post-processing parameters under USES_POST_PROCESSING, threads and
-- locks, and the parts of libhwcomposer, libgralloc, libhdmi, libqdutils, libqservice and
-- libcopybit that no file here names; they are the composer's policies, glue to binder and sysfs,
-- and vendor blitters.
pub mod Base
pub mod Utils
pub mod Ctrl
pub mod Overlay
pub mod Gralloc
pub mod Geometry
pub mod Composition
pub mod Rotator
pub mod Hdmi
pub mod Copybit
