-- ===== src/Lib.antt =====
-- A model of rv_receive, the receiver of a screen-mirroring system: clients send H.264 video and AAC
-- audio over TCP or UDP, and the receiver brings the packets together, decodes and shows them.
--
-- The parts and the files that model them:
--
--   Base         names that are shared, lists and tests over the native numbers, the integers that the
--                code returns (Base/Int), bits of a word (Base/Bits).
--   Message      socket/Message.h, socket/native.h: the packet and its head of 24 bytes, the message
--                types and the payloads of the messages that are modelled.
--   Ring         socket/RingBuffer.cpp: RingBuffer with Write, Read, Retain, Free and GetFreeSize. Pointers
--                are offsets from BUFFER. Ring/Queue is the queue of packets that a ring stands for.
--   Mask         the eight words of slice masks of socket/CombinePackage.cpp.
--   Combine      socket/CombinePackage.cpp: one packet from its slices. AllocBuffer is alloc_buffer,
--                PutPackage put_package, InitPackage init_package, IsDone is_done.
--   UdpCombine   socket/UdpCombinePackage.cpp: the list of video packets that wait, in order of their
--                numbers, with requests for what is missing (CombineCache::OnUdpSliceReceived is
--                on_video_slice), and one audio packet at a time (on_audio_slice).
--   SendCache    socket/SendPackageCache.cpp: the last packets, kept for sending again, the list of what
--                is to be sent, one round of threadSend (thread_send), and the slicing (send_l).
--   Stream       socket/TcpClient.cpp, DoRecvLoop: packets out of a TCP stream (recv_loop), by way of a
--                receive buffer of RECV_BUFSIZE bytes (recv_bufsize), their bytes in memory (frame,
--                packet_at), and one CombinePackage for what comes in slices (handle).
--   SendQueue    socket/TcpClient.cpp, SendCacheManager: three lists of what is to be sent over TCP
--                (put_send_data, get_send_data) and its slices (thread_send_data).
--   Client       socket/TcpClient.cpp, DoRecvMessage: what a client does on a message (do_recv_message),
--                StopCtrl, Send and SendRequestQuality, socket/UdpClient.cpp (for sizes of slices from 1
--                on), and of socket/Tcp.h the number and the list of players. Client/Commands is Send
--                over TCP, Client/Heartbeat DoHeartbeatLoop, Client/Support SetUdpSupport, and
--                Client/Processor the threads that hand data to the decoders (DoThreadReportData is
--                report_round, which also has what comes in while GetData waits).
--   Decoder      mpp/mpp_decoder_h264.cpp: a packet to the vendor's decoder and the frames from it
--                (decode_one_pkt, its inner loop is get_frames).
--   Picture      mpp/mpp_decoder_h264.cpp: a decoded frame's way to the screen (dump_mpp_frame_to_file is
--                dump_mpp_frame), alone or beside the pictures of other players. Picture/Planes is about
--                the rows that are brought together and libyuv's planes, Picture/Black about the screen
--                that a new size starts with.
--   Adts         faad/rv1108_aad.cpp: the next frame of an AAC stream (getADTSframe is get_adts_frame).
--   Server       socket/Tcp.cpp: the table of clients, connections (accept, FreeClient is free_client),
--                the way of a UDP slice to the client that it is from (on_udp_slice), and the datagrams of
--                socket/UdpServer.cpp (doStartListen is on_datagrams).
--
-- How they work together: SendCache cuts a message into slices and hands them to a socket; UdpCombine
-- gives each slice that comes to the Combine of its number, reports whole packets and requests what is
-- missing; the sender answers a request out of SendCache, by the masks or by a range of numbers. Over
-- TCP, SendQueue sends the slices as one stream of bytes, Stream finds the packets in it and gives them
-- to its Combine. What is whole goes to Client, which answers requests out of its SendCaches and hands
-- audio and video data to the decoders; Picture puts what comes out of those on the screen. Server keeps
-- the clients and gives each datagram to the UdpCombine of the client it is from.
--
-- Numbers: all are native natural numbers, with the wrap-around of the code's types written out where
-- it can matter: sequence numbers are uint32_t, slices uint8_t. `int` sizes and offsets stand for
-- themselves below 2 ^ 31. Time is an argument. What an operation reports or sends is in its result.
--
-- Faults: a read or write outside an array is `none`, or a constructor of its own in Ring.
-- Fuel: Retain's loop runs on fuel, one more than usedSize, since each round takes at least a head off it; the
-- outcome no_fuel tells the end of the fuel apart. DoRecvLoop takes packets on fuel, the length of the
-- buffer, since each takes a head off it. All other loops are by recursion on a list or a count.
--
-- Parameters: what `new uint8_t[n]` hands back (`new_buffer`), of which Allocates says that it has the
-- size asked for; what sendto and send return (`sent`), of which Accepts says that it is no error and
-- Takes that it is a number of bytes; what recv returns, a list of outcomes; the floats of Picture, of
-- which KeepsRatio says that they keep proportions; the functions of libyuv, of which KeepsSizes says that
-- they write planes of the sizes they are told; and what the vendor's decoder returns, a list of
-- replies.
--
-- Not modelled: mutexes, threads and events (each operation is one step, as the mutex makes it);
-- sockets and their addresses beyond the values passed; the vendor's headers and library under mpp; the
-- calls of libfaad and of MPP; logging; main.cpp; the UDP server's socket.
pub mod Base
pub mod Message
pub mod Ring
pub mod Mask
pub mod Combine
pub mod UdpCombine
pub mod SendCache
pub mod Stream
pub mod SendQueue
pub mod Client
pub mod Picture
pub mod Server
pub mod Decoder
pub mod Adts
